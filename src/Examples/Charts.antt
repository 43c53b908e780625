-- ===== src/Examples/Charts.antt =====
-- The charts of a report in euros, drawn with exact numbers.
use vekst.Prelude.{
  codes, ℕ, zero, suc, ◌≡◌, refl, ℤ, pos, negsuc, true, false, List, [], ◌∷◌, ◌++◌, none, arith,
  length,
}
use vekst.Prelude.Int.{ltb_ℤ, ◌+ℤ◌, ◌-ℤ◌, ◌*ℤ◌, neg_ℤ, int_laws}
use vekst.Prelude.Strings.{Text, text_eq, to_upper_case}
use vekst.Prelude.Decimal.{big_int, int_text, nat_text}
use vekst.Prelude.Lemmas.{All, All-imp}
use vekst.Prelude.Result.{ok, ◌>>=◌}
use vekst.Prelude.Returns.{Returns}
use vekst.Locale.{en}
use vekst.Money.{Money}
use vekst.Money.Currency.{exponent_of, lookup_exponent}
use vekst.Ui.Period.{DateFormats}
use vekst.Data.Report.{Report, ReportLine, cash}
use vekst.Data.Report.Cash.{zero_money}
use vekst.App.Charts.Numbers.{Numbers, IsOrdered}
use vekst.App.Charts.Support.{Sliced, fold_top_n}
use vekst.App.Charts.Support.Laws.{IsFoldOf, fold_top_n_lem}
use vekst.App.Charts.Lines.Laws.{HasUnits}
use vekst.App.Charts.MoneyFlow.{graph, expense_nodes}
use vekst.App.Charts.MoneyFlow.Laws.{IsPicture, graph-IsPicture}
use vekst.App.Charts.Periods.{net_result_rows}
use vekst.App.Charts.Periods.Laws.{IsAmount, IsBar, net_result_rows-IsBar}
use vekst.App.Charts.Expenses.{Item, named}
use vekst.App.Charts.Expenses.Laws.{values, named-expense_nodes}
use vekst.App.Charts.Trend.Laws.{HasAmounts}

abbrev scale : ℕ → ℕ
scale zero = 10000
scale (suc zero) = 1000
scale (suc (suc zero)) = 100
scale (suc (suc (suc zero))) = 10
scale (suc (suc (suc (suc e)))) = 1

-- Numbers that are whole ten-thousandths.
abbrev exact : Numbers
exact = record {
  Number = ℤ;
  of_units = λ z e. z *ℤ pos (scale e);
  zero_number = pos 0;
  add = λ a b. a +ℤ b;
  sub = λ a b. a -ℤ b;
  negate = neg_ℤ;
  less = ltb_ℤ;
}

scaled_pos : (z : ℤ) (e : ℕ) → ltb_ℤ (pos 0) z ≡ true → ltb_ℤ (pos 0) (z *ℤ pos (scale e)) ≡ true
unfolding ◌*ℤ◌
scaled_pos z zero h = ground arith
scaled_pos z (suc zero) h = ground arith
scaled_pos z (suc (suc zero)) h = ground arith
scaled_pos z (suc (suc (suc zero))) h = ground arith
scaled_pos z (suc (suc (suc (suc e)))) h = ground arith

scaled_zero : (e : ℕ) → pos 0 *ℤ pos (scale e) ≡ pos 0
unfolding ◌*ℤ◌
scaled_zero zero = refl
scaled_zero (suc zero) = refl
scaled_zero (suc (suc zero)) = refl
scaled_zero (suc (suc (suc zero))) = refl
scaled_zero (suc (suc (suc (suc e)))) = refl

less_trans : (a b c : ℤ) → ltb_ℤ a b ≡ false → ltb_ℤ b c ≡ false → ltb_ℤ a c ≡ false
less_trans a b c h k = ground arith

less_asym : (a b : ℤ) → ltb_ℤ a b ≡ true → ltb_ℤ b a ≡ false
less_asym a b h = ground arith

sum_pos :
    (a b : ℤ) → ltb_ℤ (pos 0) a ≡ true → ltb_ℤ (pos 0) b ≡ true → ltb_ℤ (pos 0) (a +ℤ b) ≡ true
unfolding ◌+ℤ◌
sum_pos a b h k = ground arith

sum_zero : (a : ℤ) → pos 0 +ℤ a ≡ a
sum_zero a = omega int_laws

opposite : (a : ℤ) → ltb_ℤ a (pos 0) ≡ true → ltb_ℤ (pos 0) (neg_ℤ a) ≡ true
unfolding neg_ℤ
opposite a h = ground arith

exact-IsOrdered : IsOrdered exact
exact-IsOrdered = record {
  less_asym = less_asym;
  less_trans = less_trans;
  of_units_pos = λ z e h. scaled_pos z e;
  of_units_zero = scaled_zero;
  add_pos = sum_pos;
  add_zero = sum_zero;
  negate_pos = opposite;
}

abbrev euros : Text → Money
euros units = record { minor_units = units; currency_code = codes "EUR" }

abbrev line : Text → Text → Text → Text → Text → ReportLine
line code label first second total = record {
  category_id = code;
  label = label;
  computed = false;
  values = euros first ∷ euros second ∷ [];
  total = euros total;
  percent_of_revenue = none;
}

abbrev two_months : Report
two_months = record {
  currency_code = codes "EUR";
  periods = codes "2026-01" ∷ codes "2026-02" ∷ [];
  basis = cash;
  lines =
      line (codes "01") (codes "NET SALES") (codes "600") (codes "400") (codes "1000")
      ∷ line (codes "02") (codes "CS") (codes "500") (codes "200") (codes "700")
      ∷ line (codes "06") (codes "FR") (codes "-30") (codes "-20") (codes "-50")
      ∷ [];
  buckets = [];
  net_by_period = euros (codes "130") ∷ euros (codes "-20") ∷ [];
  net_total = euros (codes "110");
  revenue_total = euros (codes "1000");
  expenses_total = euros (codes "700");
  expenses_by_period = euros (codes "500") ∷ euros (codes "-200") ∷ [];
  cash =
      record {
        period = codes "2026-01";
        money_in = euros (codes "600");
        money_out = euros (codes "-470");
        net = euros (codes "130");
      }
      ∷ [];
  reconciliation = record {
    opening = zero_money;
    money_in = zero_money;
    money_out = zero_money;
    transfers = zero_money;
    closing = zero_money;
  };
  provenance = record { taxonomy_version = []; ruleset_version = []; engine_version = [] };
  unreviewed_amount = euros (codes "0");
}

abbrev plain_dates : DateFormats
plain_dates = record {
  short_month = λ _ m. nat_text m.month;
  short_month_year = λ _ m. nat_text m.month ++ b' ' ∷ nat_text m.year;
  long_month_year = λ _ m. nat_text m.month ++ b' ' ∷ nat_text m.year;
}

two_months-HasUnits : All HasUnits two_months.lines
unfolding big_int
two_months-HasUnits = ((pos 1000, refl), ((pos 700, refl), ((negsuc 49, refl), tt)))

two_months-HasAmounts : All HasAmounts two_months.lines
unfolding int_text
two_months-HasAmounts = (
  ((pos 1000, refl), ((pos 600, refl), ((pos 400, refl), tt))),
  (
    ((pos 700, refl), ((pos 500, refl), ((pos 200, refl), tt))),
    (((negsuc 49, refl), ((negsuc 29, refl), ((negsuc 19, refl), tt))), tt),
  ),
)

graph-IsPicture_example :
    Returns (IsPicture exact two_months) (graph exact (λ name. name) two_months en)
graph-IsPicture_example =
    graph-IsPicture exact exact-IsOrdered (λ name. name) two_months en two_months-HasUnits

abbrev three_slices : List (Sliced exact Item)
three_slices =
    record { label = none; value = pos 2; item = record { category_id = codes "02" } }
    ∷ record { label = none; value = pos 5; item = record { category_id = codes "03" } }
    ∷ record { label = none; value = pos 3; item = record { category_id = codes "04" } }
    ∷ []

fold_top_n_lem_example :
    (tail : List (Sliced exact Item)) × IsFoldOf exact
      (fold_top_n exact three_slices 2 none)
      three_slices
      2
      none
      tail
fold_top_n_lem_example = fold_top_n_lem exact exact-IsOrdered three_slices 2 none

named-expense_nodes_example :
    (do es ← named exact two_months en; ok (values exact es))
    ≡ (do es ← expense_nodes exact two_months 2 en; ok (values exact es))
unfolding exponent_of lookup_exponent to_upper_case text_eq
named-expense_nodes_example = named-expense_nodes exact two_months 2 en refl

net_result_rows-IsBar_example :
    Returns
      (λ rows. (length rows ≡ 2) × All (IsBar exact) rows)
      (net_result_rows exact plain_dates two_months en)
unfolding int_text
net_result_rows-IsBar_example =
    net_result_rows-IsBar exact exact-IsOrdered plain_dates two_months en (omega arith)
      ((pos 130, refl), ((negsuc 19, refl), tt))

two_months_values : All (λ l. All IsAmount l.values) two_months.lines
two_months_values =
    All-imp HasAmounts (λ l. All IsAmount l.values) two_months.lines (λ l h. h.1)
      two_months-HasAmounts
