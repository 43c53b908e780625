-- ===== src/Examples/Figures.antt =====
-- Amounts, totals and the report's strip at concrete inputs.
use vekst.Data.Report.{ReportLine, expenses_from}
use vekst.Data.Report.Costs.{Costs, IsBad, expenses_from-Costs}
use vekst.Prelude.{
  false, ℕ, ◌<◌, Text, codes, ℤ, pos, negsuc, ◌≡◌, refl, ◌⊎◌, ◌↔◌, List, [], ◌∷◌, map, Option, none,
  some, true, false,
}
use vekst.Prelude.Int.{◌+ℤ◌, neg_ℤ}
use vekst.Prelude.Decimal.{big_int, int_text}
use vekst.Prelude.Lemmas.{All}
use vekst.Prelude.Result.{ok, err, syntax_error}
use vekst.Locale.{ru}
use vekst.Money.{Money, format_minor_units, sum_minor_units}
use vekst.Money.Currency.{exponent_of, Listed, core_exponents, exponent_of-core}
use vekst.Prelude.Strings.{to_upper_case}
use vekst.Money.Figure.{IsFigure, format_minor_units-IsFigure}
use vekst.Money.Sums.{total, Reads, Unreadable, sum_minor_units-IsTotal}
use vekst.Wire.Imports.{BalanceMismatchDetail}
use vekst.Wire.Report.{ReconciliationLine}
use vekst.Data.Imports.{balance_check_from_proto}
use vekst.Data.Imports.Detail.{balance_check_from_proto-IsBalanced}
use vekst.Data.Report.Cash.{
  Reconciliation, CashPeriod, units_of, aggregate_reconciliation, cash_by_period,
}
use vekst.Data.Report.Cash.Laws.{
  none_left, amount, IsNetted, aggregate_reconciliation-IsBalanced, cash_by_period-IsNetted,
}

format_minor_units-IsFigure_example :
    (out : Text) × (format_minor_units (int_text (negsuc 1234566)) 2 ru ≡ ok out)
    × IsFigure ru 2 (negsuc 1234566) out
format_minor_units-IsFigure_example = format_minor_units-IsFigure (negsuc 1234566) 2 ru

abbrev two_amounts : List Text
two_amounts = codes "1500" ∷ codes "-250" ∷ []

sum_minor_units-IsTotal_example :
    ((vs : List ℤ) × (s : Text) × Reads two_amounts vs
      × (sum_minor_units two_amounts ≡ ok s)
      × (big_int s ≡ some (total vs)))
    ⊎ (Unreadable two_amounts × (sum_minor_units two_amounts ≡ err syntax_error))
sum_minor_units-IsTotal_example = sum_minor_units-IsTotal two_amounts

abbrev euro : Text → Option Money
euro units = some (record { minor_units = units; currency_code = codes "EUR" })

abbrev line : Text → Text → Text → Text → ReconciliationLine
line period opening paid_in paid_out = record {
  period = period;
  opening = euro opening;
  money_in = euro paid_in;
  money_out = euro paid_out;
  transfers = none;
  transfer_row_count = pos 0;
  closing = none;
  balances = true;
  derived = false;
}

abbrev january : ReconciliationLine
january = line (codes "2026-01") (codes "1000") (codes "500") (codes "200")

abbrev february : ReconciliationLine
february = line (codes "2026-02") (codes "1300") (codes "0") (codes "40")

abbrev ins : List ℤ
ins = pos 500 ∷ pos 0 ∷ []

abbrev outs : List ℤ
outs = pos 200 ∷ pos 40 ∷ []

abbrev moves : List ℤ
moves = pos 0 ∷ pos 0 ∷ []

reads :
    (units_of january.opening ≡ ok (pos 1000))
    × (units_of january.money_in ≡ ok (pos 500))
    × (units_of january.money_out ≡ ok (pos 200))
    × (units_of february.money_in ≡ ok (pos 0))
    × (units_of february.money_out ≡ ok (pos 40))
    × (units_of none ≡ ok (pos 0))
unfolding units_of big_int
reads = (refl, refl, refl, refl, refl, refl)

aggregate_reconciliation-IsBalanced_example :
    (r : Reconciliation) × (aggregate_reconciliation (january ∷ february ∷ []) ≡ ok r)
    × (units_of (some r.opening) ≡ ok (pos 1000))
    × (units_of (some r.money_in) ≡ ok (total ins))
    × (units_of (some r.money_out) ≡ ok (neg_ℤ (total outs)))
    × (units_of (some r.transfers) ≡ ok (neg_ℤ (total moves)))
    × (units_of (some r.closing)
        ≡ ok (pos 1000 +ℤ total ins +ℤ neg_ℤ (total outs) +ℤ neg_ℤ (total moves)))
aggregate_reconciliation-IsBalanced_example =
    aggregate_reconciliation-IsBalanced january (february ∷ []) (pos 1000) ins outs moves reads.0
      (amount reads.1 (amount reads.3 none_left)) (amount reads.2 (amount reads.4 none_left))
      (amount reads.5 (amount reads.5 none_left))

cash_by_period-IsNetted_example :
    (cs : List CashPeriod) × (cash_by_period
        (codes "2026-02" ∷ codes "2026-03" ∷ [])
        (january ∷ february ∷ [])
        (codes "EUR")
      ≡ ok cs)
    × (map (λ c. c.period) cs ≡ codes "2026-02" ∷ codes "2026-03" ∷ [])
    × All (IsNetted (january ∷ february ∷ [])) cs
cash_by_period-IsNetted_example =
    cash_by_period-IsNetted (codes "2026-02" ∷ codes "2026-03" ∷ []) (january ∷ february ∷ [])
      (codes "EUR")
      (((pos 500, reads.1), (pos 200, reads.2)), (((pos 0, reads.3), (pos 40, reads.4)), tt))

abbrev mismatch : BalanceMismatchDetail
mismatch = record {
  opening = pos 1000;
  movements = negsuc 299;
  closing = pos 750;
  difference = pos 50;
  currency = codes "EUR";
}

balance_check_from_proto-IsBalanced_example :
    let c = balance_check_from_proto mismatch in
    (big_int c.opening.minor_units ≡ some (pos 1000))
    × (big_int c.movements.minor_units ≡ some (negsuc 299))
    × (big_int c.closing.minor_units ≡ some (pos 1000 +ℤ negsuc 299))
    × (big_int c.declared.minor_units ≡ some (pos 750))
balance_check_from_proto-IsBalanced_example = balance_check_from_proto-IsBalanced mismatch

exponent_of-core_example :
    Listed (codes "KWD") 3 core_exponents
    ↔ ((exponent_of (codes "KWD") ≡ some 3) × (to_upper_case (codes "KWD") ≡ codes "KWD"))
exponent_of-core_example = exponent_of-core (codes "KWD") 3

abbrev sales : ReportLine
sales = record {
  category_id = codes "01";
  label = codes "Net sales";
  computed = false;
  values = record { minor_units = codes "900"; currency_code = codes "EUR" } ∷ [];
  total = record { minor_units = codes "900"; currency_code = codes "EUR" };
  percent_of_revenue = none;
}

abbrev two_months : List Text
two_months = codes "2026-01" ∷ codes "2026-02" ∷ []

expenses_from-Costs_example :
    ((ms : List Money) × (expenses_from (some sales) none (codes "EUR") 0 two_months ≡ ok ms)
      × Costs (some sales) none 0 two_months ms)
    ⊎ ((j : ℕ) × (j < 2)
        × IsBad (some sales) none j
        × (expenses_from (some sales) none (codes "EUR") 0 two_months ≡ err syntax_error))
expenses_from-Costs_example = expenses_from-Costs (some sales) none (codes "EUR") 0 two_months
