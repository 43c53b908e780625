-- ===== src/App/Charts/Periods.antt =====
-- web/src/app/charts: the rows of the charts by month. NetResultChart.tsx, CashFlowChart.tsx and
-- RevenueExpenseChart.tsx.
pub mod Laws
pub mod Magnitudes
use vekst.Prelude.{
  ℕ, suc, ◌==◌, codes, List, [], ◌∷◌, Option, none, some, Bool, true, false, ◌||◌, if◌then◌else◌,
  get_elem?,
}
use vekst.Prelude.Strings.{Text}
use vekst.Prelude.Result.{Result, ok, err, or_throw, type_error, map_result, ◌>>=◌}
use vekst.Locale.{Locale}
use vekst.Money.{Money, format_minor_units, no_data}
use vekst.Money.Currency.{exponent_of}
use vekst.Ui.Period.{DateFormats, format_period_short}
use vekst.Data.Report.{Report, ReportLine, value_at}
use vekst.Data.Report.Cash.{CashPeriod}
use vekst.App.Charts.Numbers.{Numbers, major_or_zero, not_zero, absolute}
use vekst.App.Charts.Lines.{revenue_line}

-- exp === undefined ? fallback : formatMinorUnits(…)
abbrev pub text_or : Text → Option ℕ → Text → Locale → Result Text
text_or fallback none units locale = ok fallback
text_or fallback (some e) units locale = format_minor_units units e locale

-- .replace(/^-/, "")
abbrev pub without_sign : Text → Text
without_sign [] = []
without_sign (c ∷ s) = if c == b'-' then s else c ∷ s

-- report.netByPeriod[i]!.minorUnits, which is read for a known exponent only
abbrev pub net_units : Option ℕ → Option Money → Result Text
net_units none m = ok []
net_units (some e) none = err type_error
net_units (some e) (some m) = ok m.minor_units

module _ (n : Numbers) where
  pub record NetRow : Type 0 where
    pub period : Text
    pub profit : n.Number
    pub loss : n.Number
    pub text : Text

  abbrev pub net_row : Text → n.Number → Text → NetRow
  net_row period amount text = record {
    period = period;
    profit = if n.less n.zero_number amount then amount else n.zero_number;
    loss = if n.less amount n.zero_number then n.negate amount else n.zero_number;
    text = text;
  }

  -- report.periods.map((period, i) => …), from index `i` on
  unfoldable pub net_rows_from :
      DateFormats → Report → Locale → ℕ → List Text → Result (List NetRow)
  unfolding exponent_of format_minor_units format_period_short
  net_rows_from f report locale i [] = ok []
  net_rows_from f report locale i (period ∷ periods) = do
    units ← net_units (exponent_of report.currency_code) (get_elem? report.net_by_period i)
    amount ← major_or_zero n (exponent_of report.currency_code) units
    text ← text_or [] (exponent_of report.currency_code) units locale
    rest ← net_rows_from f report locale (suc i) periods
    ok (net_row (format_period_short f period locale) amount text ∷ rest)

  -- netResultRows
  unfoldable pub net_result_rows : DateFormats → Report → Locale → Result (List NetRow)
  unfolding net_rows_from
  net_result_rows f report locale = net_rows_from f report locale 0 report.periods

  pub record CashRow : Type 0 where
    pub period : Text
    pub money_in : n.Number
    pub money_out : n.Number
    pub in_text : Text
    pub out_text : Text
    pub net_text : Text

  unfoldable pub cash_row : DateFormats → Report → Locale → CashPeriod → Result CashRow
  unfolding exponent_of format_minor_units format_period_short
  cash_row f report locale c =
      let e = exponent_of report.currency_code in
      do
        money_in ← major_or_zero n e c.money_in.minor_units
        money_out ← major_or_zero n e c.money_out.minor_units
        in_text ← text_or no_data e c.money_in.minor_units locale
        out_text ← text_or no_data e c.money_out.minor_units locale
        net_text ← text_or no_data e c.net.minor_units locale
        ok (record {
          period = format_period_short f c.period locale;
          money_in = money_in;
          money_out = absolute n money_out;
          in_text = in_text;
          out_text = out_text;
          net_text = net_text;
        })

  unfoldable pub cash_rows : DateFormats → Report → Locale → Result (List CashRow)
  unfolding cash_row map_result
  cash_rows f report locale = map_result (cash_row f report locale) report.cash

  pub record RevenueExpenseRow : Type 0 where
    pub period : Text
    pub revenue : n.Number
    pub expenses : n.Number
    pub revenue_text : Text
    pub expenses_text : Text

  unfoldable pub revenue_expense_rows_from :
      Report → Locale → ℕ → List Text → Result (List RevenueExpenseRow)
  unfolding exponent_of format_minor_units revenue_line
  revenue_expense_rows_from report locale i [] = ok []
  revenue_expense_rows_from report locale i (period ∷ periods) =
      let e = exponent_of report.currency_code in
      let revenue_minor = (value_at (revenue_line report.lines) i).minor_units in
      do
        m ← or_throw type_error (get_elem? report.expenses_by_period i)
        let expense_minor = without_sign m.minor_units
        revenue ← major_or_zero n e revenue_minor
        expenses ← major_or_zero n e expense_minor
        revenue_text ← text_or [] e revenue_minor locale
        expenses_text ← text_or [] e expense_minor locale
        rest ← revenue_expense_rows_from report locale (suc i) periods
        ok (
            record {
              period = period;
              revenue = revenue;
              expenses = expenses;
              revenue_text = revenue_text;
              expenses_text = expenses_text;
            }
            ∷ rest)

  -- rows
  unfoldable pub revenue_expense_rows : Report → Locale → Result (List RevenueExpenseRow)
  unfolding revenue_expense_rows_from
  revenue_expense_rows report locale = revenue_expense_rows_from report locale 0 report.periods

  -- rows.some(…): whether there is anything to draw
  unfoldable pub net_has_data : List NetRow → Bool
  net_has_data [] = false
  net_has_data (r ∷ rows) = (not_zero n r.profit || not_zero n r.loss) || net_has_data rows

  unfoldable pub cash_has_data : List CashRow → Bool
  cash_has_data [] = false
  cash_has_data (r ∷ rows) = (not_zero n r.money_in || not_zero n r.money_out) || cash_has_data rows

  unfoldable pub revenue_expense_has_data : List RevenueExpenseRow → Bool
  revenue_expense_has_data [] = false
  revenue_expense_has_data (r ∷ rows) =
      (not_zero n r.revenue || not_zero n r.expenses) || revenue_expense_has_data rows
