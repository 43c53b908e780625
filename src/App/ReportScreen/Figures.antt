-- ===== src/App/ReportScreen/Figures.antt =====
-- web/src/app/StatTiles.tsx and Reconciliation.tsx: labelled amounts above and below the report.
use vekst.Prelude.{codes, ℕ, List, [], ◌∷◌, Option, none, some}
use vekst.Prelude.Strings.{Text}
use vekst.Prelude.Result.{Result, ok, map_result, ◌>>=◌}
use vekst.Locale.{Locale}
use vekst.I18n.{t}
use vekst.Money.{Money, format_minor_units, no_data}
use vekst.Money.Currency.{exponent_of}
use vekst.Data.Report.{Report}
use vekst.Data.Report.Cash.{Reconciliation}

abbrev pub text_of : Option ℕ → Text → Locale → Result Text
text_of none units locale = ok no_data
text_of (some e) units locale = format_minor_units units e locale

-- An amount in its own currency, or a dash where the currency has no known exponent.
unfoldable pub fmt : Money → Locale → Result Text
unfolding exponent_of format_minor_units
fmt m locale = text_of (exponent_of m.currency_code) m.minor_units locale

pub record Labelled : Type 0 where
  pub label : Option Text
  pub text : Text

-- Tile, and Cell of the strip
unfoldable pub tile : Locale → Text × Money → Result Labelled
unfolding fmt t
tile locale (key, m) = do text ← fmt m locale; ok (record { label = t key locale; text = text })

abbrev pub tile_amounts : Report → List (Text × Money)
tile_amounts r =
    (codes "stat.revenue", r.revenue_total)
    ∷ (codes "stat.expenses", r.expenses_total)
    ∷ (codes "stat.net", r.net_total)
    ∷ (codes "stat.unreviewed", r.unreviewed_amount)
    ∷ []

unfoldable pub stat_tiles : Report → Locale → Result (List Labelled)
unfolding tile map_result
stat_tiles r locale = map_result (tile locale) (tile_amounts r)

abbrev pub strip_amounts : Reconciliation → List (Text × Money)
strip_amounts r =
    (codes "recon.opening", r.opening)
    ∷ (codes "recon.in", r.money_in)
    ∷ (codes "recon.out", r.money_out)
    ∷ (codes "recon.transfers", r.transfers)
    ∷ (codes "recon.closing", r.closing)
    ∷ []

unfoldable pub strip : Reconciliation → Locale → Result (List Labelled)
unfolding tile map_result
strip r locale = map_result (tile locale) (strip_amounts r)
