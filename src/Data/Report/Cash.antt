-- ===== src/Data/Report/Cash.antt =====
-- web/src/data/report.ts: the reconciliation strip, and the money that moved in each month.
pub mod Laws
use vekst.Prelude.{Text, codes, ℤ, pos, List, [], ◌∷◌, Option, none, some, if◌then◌else◌}
use vekst.Prelude.Int.{◌+ℤ◌, ◌-ℤ◌, neg_ℤ}
use vekst.Prelude.Strings.{text_eq}
use vekst.Prelude.Decimal.{big_int, int_text}
use vekst.Prelude.Result.{Result, ok, or_throw, syntax_error, ◌>>=◌}
use vekst.Money.{Money}
use vekst.Wire.Report.{ReconciliationLine}

pub record Reconciliation : Type 0 where
  pub opening : Money
  pub money_in : Money
  pub money_out : Money
  pub transfers : Money
  pub closing : Money

-- ZERO
abbrev pub zero_money : Money
zero_money = record { minor_units = codes "0"; currency_code = [] }

abbrev pub in_currency : Text → ℤ → Money
in_currency currency v = record { minor_units = int_text v; currency_code = currency }

-- BigInt(m?.minorUnits ?? "0")
unfoldable pub units_of : Option Money → Result ℤ
unfolding big_int
units_of none = or_throw syntax_error (big_int (codes "0"))
units_of (some m) = or_throw syntax_error (big_int m.minor_units)

unfoldable pub sum_units :
    (ReconciliationLine → Option Money) → ℤ → List ReconciliationLine → Result ℤ
unfolding units_of ◌+ℤ◌
sum_units pick acc [] = ok acc
sum_units pick acc (l ∷ lines) = do v ← units_of (pick l); sum_units pick (acc +ℤ v) lines

abbrev pub currency_of : Option Money → Text
currency_of none = []
currency_of (some m) = m.currency_code

unfoldable pub aggregate_reconciliation : List ReconciliationLine → Result Reconciliation
unfolding units_of sum_units int_text ◌+ℤ◌ ◌-ℤ◌ neg_ℤ
aggregate_reconciliation [] = ok (record {
  opening = zero_money;
  money_in = zero_money;
  money_out = zero_money;
  transfers = zero_money;
  closing = zero_money;
})
aggregate_reconciliation (first ∷ lines) = do
  opening ← units_of first.opening
  money_in ← sum_units (λ l. l.money_in) (pos 0) (first ∷ lines)
  money_out ← sum_units (λ l. l.money_out) (pos 0) (first ∷ lines)
  transfers ← sum_units (λ l. l.transfers) (pos 0) (first ∷ lines)
  let closing = opening +ℤ money_in -ℤ money_out -ℤ transfers
  let m = in_currency (currency_of first.opening)
  ok (record {
    opening = m opening;
    money_in = m money_in;
    money_out = m (neg_ℤ money_out);
    transfers = m (neg_ℤ transfers);
    closing = m closing;
  })

pub record CashPeriod : Type 0 where
  pub period : Text
  pub money_in : Money
  pub money_out : Money
  pub net : Money

-- byPeriod.get(period): of two lines of one period the map keeps the later.
unfoldable pub line_of_period : Text → List ReconciliationLine → Option ReconciliationLine
unfolding text_eq
line_of_period period [] = none
line_of_period period (l ∷ lines) = elim (line_of_period period lines) [
  | some later ↦ some later
  | none ↦ if text_eq l.period period then some l else none
]

abbrev pub picked : (ReconciliationLine → Option Money) → Option ReconciliationLine → Option Money
picked pick none = none
picked pick (some l) = pick l

unfoldable pub cash_of_period : Text → Text → Option ReconciliationLine → Result CashPeriod
unfolding units_of int_text neg_ℤ ◌+ℤ◌
cash_of_period currency period line = do
  money_in ← units_of (picked (λ l. l.money_in) line)
  paid ← units_of (picked (λ l. l.money_out) line)
  let money_out = neg_ℤ paid
  ok (record {
    period = period;
    money_in = in_currency currency money_in;
    money_out = in_currency currency money_out;
    net = in_currency currency (money_in +ℤ money_out);
  })

unfoldable pub cash_by_period :
    List Text → List ReconciliationLine → Text → Result (List CashPeriod)
unfolding line_of_period cash_of_period
cash_by_period [] lines currency = ok []
cash_by_period (period ∷ periods) lines currency = do
  c ← cash_of_period currency period (line_of_period period lines)
  rest ← cash_by_period periods lines currency
  ok (c ∷ rest)
