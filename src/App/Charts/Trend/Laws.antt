-- ===== src/App/Charts/Trend/Laws.antt =====
-- The small charts: how many, of which lines, and in which order.
use vekst.Prelude.{◌≡◌, true}
use vekst.Prelude.Lemmas.{All}
use vekst.Prelude.Result.{ok}
use vekst.Prelude.Returns.{Returns}
use vekst.Locale.{Locale}
use vekst.Money.{Money}
use vekst.Money.Currency.{exponent_of}
use vekst.Data.Report.{Report, ReportLine}
use vekst.App.Charts.Numbers.{Numbers}
use vekst.App.Charts.Lines.{is_cost}
use vekst.App.Charts.Periods.Laws.{IsAmount}
use vekst.App.Charts.Trend.{Facet, facet_of, has_shape}

-- A line as the wire sends it.
abbrev pub HasAmounts : ReportLine → Type 0
HasAmounts l = IsAmount l.total × All IsAmount l.values

module _ (n : Numbers) where
  -- The chart of a line that is a cost.
  abbrev pub IsFacetOf : Report → Locale → Facet n → Type 0
  IsFacetOf report locale f =
      (l : ReportLine) × (is_cost l ≡ true)
      × (facet_of n report (exponent_of report.currency_code) locale l ≡ ok f)

  abbrev pub IsShaped : Facet n → Type 0
  IsShaped f = has_shape n f.rows ≡ true
