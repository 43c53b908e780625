-- ===== src/App/Charts/Expenses.antt =====
-- web/src/app/charts/ExpenseCategoriesChart.tsx: a bar for each of the largest costs.
pub mod Laws
use vekst.Prelude.{ℕ, codes, List, [], ◌∷◌, Option, none, some}
use vekst.Prelude.Strings.{Text}
use vekst.Prelude.Result.{Result, ok, map_result, ◌>>=◌}
use vekst.Locale.{Locale}
use vekst.Money.{format_minor_units, no_data}
use vekst.Money.Currency.{exponent_of}
use vekst.App.LineName.{line_name}
use vekst.Data.Report.{Report, ReportLine}
use vekst.App.Charts.Numbers.{Numbers, major_or_zero}
use vekst.App.Charts.Support.{Sliced, Other, fold_top_n, sort, folded_entries}
use vekst.App.Charts.Lines.{cost_lines, positive_lines}

-- MAX_SLOTS
abbrev pub max_slots : ℕ
max_slots = 8

pub record Item : Type 0 where
  pub category_id : Text

module _ (n : Numbers) where
  pub record Bar : Type 0 where
    pub name : Option Text
    pub value : n.Number
    pub text : Text

  abbrev pub slice_of : Option ℕ → Locale → ReportLine → Result (Sliced n Item)
  slice_of e locale l = do
    value ← major_or_zero n e l.total.minor_units
    ok (record {
      label = line_name l.category_id l.label locale;
      value = value;
      item = record { category_id = l.category_id };
    })

  -- named: the largest eight, and the others as one
  unfoldable pub named : Report → Locale → Result (List (Other n))
  unfolding cost_lines positive_lines exponent_of map_result fold_top_n
  named report locale = do
    lines ← positive_lines (cost_lines report.lines)
    sliced ← map_result (slice_of (exponent_of report.currency_code) locale) lines
    ok (folded_entries n (fold_top_n n sliced max_slots (some no_data)))

  -- `units` is String(Math.round(value * 10 ** exp)).
  abbrev pub bar_of : (n.Number → ℕ → Text) → Option ℕ → Locale → Other n → Result Bar
  bar_of units none locale r = ok (record { name = r.label; value = r.value; text = no_data })
  bar_of units (some e) locale r = do
    text ← format_minor_units (units r.value e) e locale
    ok (record { name = r.label; value = r.value; text = text })

  unfoldable pub rows : (n.Number → ℕ → Text) → Report → Locale → Result (List Bar)
  unfolding named map_result exponent_of
  rows units report locale = do
    rs ← named report locale
    map_result (bar_of units (exponent_of report.currency_code) locale) rs
