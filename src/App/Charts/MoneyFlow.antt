-- ===== src/App/Charts/MoneyFlow.antt =====
-- web/src/app/charts/MoneyFlowChart.tsx: from the revenue to the costs, as nodes and links.
pub mod Laws
use vekst.Prelude.{
  ℕ, suc, ◌%◌, codes, ℤ, pos, List, [], ◌∷◌, ◌++◌, map, Option, none, some, Bool, true, false, not,
  if◌then◌else◌, get_or,
}
use vekst.Prelude.Int.{ltb_ℤ}
use vekst.Prelude.Strings.{Text}
use vekst.Prelude.Decimal.{big_int}
use vekst.Prelude.Result.{Result, ok, or_throw, syntax_error, map_result, ◌>>=◌}
use vekst.Locale.{Locale}
use vekst.I18n.{t}
use vekst.Money.{format_minor_units}
use vekst.Money.Currency.{exponent_of}
use vekst.App.LineName.{line_name}
use vekst.Data.Report.{Report, ReportLine}
use vekst.App.Charts.Numbers.{Numbers, major, sum_from}
use vekst.App.Charts.Support.{Sliced, Other, fold_top_n, folded_entries}
use vekst.App.Charts.Lines.{cost_lines, positive_lines, revenue_line}

-- MAX_EXPENSE_SLOTS
abbrev pub max_expense_slots : ℕ
max_expense_slots = 8

-- SERIES_SLOTS
abbrev series_slots : List Text
series_slots =
    codes "--vk-series-1"
    ∷ codes "--vk-series-2"
    ∷ codes "--vk-series-3"
    ∷ codes "--vk-series-4"
    ∷ codes "--vk-series-5"
    ∷ codes "--vk-series-6"
    ∷ codes "--vk-series-7"
    ∷ codes "--vk-series-8"
    ∷ []

pub record Node : Type 0 where
  pub name : Option Text
  pub color : Text

-- A row of the table that stands for the picture.
pub record Row : Type 0 where
  pub label : Option Text
  pub text : Text

-- item: null
pub record NoItem : Type 0 where

module _ (n : Numbers) where
  pub record Link : Type 0 where
    pub source : Option Text
    pub target : Option Text
    pub value : n.Number

  pub record Graph : Type 0 where
    pub nodes : List Node
    pub links : List Link

  abbrev pub slice_of : ℕ → Locale → ReportLine → Result (Sliced n NoItem)
  slice_of e locale l = do
    value ← major n l.total.minor_units e
    ok (record { label = line_name l.category_id l.label locale; value = value; item = record {} })

  -- expenseLinesFor
  unfoldable pub expense_lines_for : Report → ℕ → Locale → Result (List (Sliced n NoItem))
  unfolding cost_lines positive_lines major map_result
  expense_lines_for report e locale = do
    lines ← positive_lines (cost_lines report.lines)
    map_result (slice_of e locale) lines

  module _ (token : Text → Text) where
    -- The i-th of the list has the slot `i % 8`.
    abbrev pub slot_nodes : ℕ → List (Other n) → List Node
    slot_nodes i [] = []
    slot_nodes i (e ∷ es) =
        record { name = e.label; color = token (get_or series_slots (i % 8) []) }
        ∷ slot_nodes (suc i) es

    abbrev pub net_nodes : Bool → Option Text → List Node
    net_nodes true name = record { name = name; color = token (codes "--vk-text") } ∷ []
    net_nodes false name = []

  abbrev pub net_links : Bool → Option Text → Option Text → n.Number → List Link
  net_links true source target value =
      record { source = source; target = target; value = value } ∷ []
  net_links false source target value = []

  -- From the folded costs on: `revenue` is the name of the revenue line and `total` its amount.
  unfoldable pub draw :
      (Text → Text) → Option Text → Option Text → Option Text → n.Number → List (Other n) → Graph
  draw token revenue total_in net total nodes =
      let remainder = n.sub total (sum_from n n.zero_number (map (λ e. e.value) nodes)) in
      let left = n.less n.zero_number remainder in
      record {
        nodes =
            record { name = revenue; color = token (codes "--vk-text") }
              ∷ record { name = total_in; color = token (codes "--vk-text") }
              ∷ slot_nodes token 0 nodes
            ++ net_nodes token left net;
        links =
            record { source = revenue; target = total_in; value = total }
              ∷ map (λ e. record { source = total_in; target = e.label; value = e.value }) nodes
            ++ net_links left total_in net remainder;
      }

  -- The costs as nodes: the largest eight, and the others as one.
  unfoldable pub expense_nodes : Report → ℕ → Locale → Result (List (Other n))
  unfolding expense_lines_for fold_top_n
  expense_nodes report e locale = do
    lines ← expense_lines_for report e locale
    ok (
        folded_entries n
          (fold_top_n n lines max_expense_slots (t (codes "chart.moneyflow.other") locale)))

  -- With a known exponent and a revenue line.
  unfoldable pub graph_of : (Text → Text) → Report → Locale → ℕ → ReportLine → Result (Option Graph)
  unfolding big_int expense_nodes major draw
  graph_of token report locale e revenue = do
    units ← or_throw syntax_error (big_int revenue.total.minor_units)
    if not (ltb_ℤ (pos 0) units) then ok none else (do
      costs ← expense_nodes report e locale
      total ← major n revenue.total.minor_units e
      ok (
          some (
            draw token (line_name revenue.category_id revenue.label locale)
              (t (codes "chart.moneyflow.totalIn") locale)
              (t (codes "chart.netresult.series") locale) total costs)))

  abbrev pub graph_from :
      (Text → Text) → Report → Locale → Option ℕ → Option ReportLine → Result (Option Graph)
  graph_from token report locale (some e) (some revenue) = graph_of token report locale e revenue
  graph_from token report locale _ _ = ok none

  -- `none` is `null`: nothing is drawn.
  unfoldable pub graph : (Text → Text) → Report → Locale → Result (Option Graph)
  unfolding exponent_of revenue_line graph_of
  graph token report locale =
      graph_from token report locale (exponent_of report.currency_code) (revenue_line report.lines)

abbrev is_zero_revenue : Option ReportLine → Result Bool
is_zero_revenue none = ok false
is_zero_revenue (some revenue) = do
  units ← or_throw syntax_error (big_int revenue.total.minor_units)
  ok (not (ltb_ℤ (pos 0) units))

-- zeroRevenue
unfoldable pub zero_revenue : Report → Result Bool
unfolding revenue_line big_int
zero_revenue report = is_zero_revenue (revenue_line report.lines)

-- unavailableKey
abbrev pub unavailable_key : Bool → Option Text
unavailable_key zero = if zero then some (codes "chart.moneyflow.unavailable") else none

abbrev row_of : ℕ → Locale → ReportLine → Result Row
row_of e locale l = do
  text ← format_minor_units l.total.minor_units e locale
  ok (record { label = line_name l.category_id l.label locale; text = text })

-- rows
unfoldable pub table_rows : Report → Locale → Result (List Row)
unfolding exponent_of map_result
table_rows report locale = elim (exponent_of report.currency_code) [
  | none ↦ ok []
  | some e ↦ map_result (row_of e locale) report.lines
]
