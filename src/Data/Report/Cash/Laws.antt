-- ===== src/Data/Report/Cash/Laws.antt =====
-- The strip and the months of money against the integers that the wire's texts stand for.
use vekst.Prelude.{
  Text, ℤ, pos, ◌≡◌, refl, ap, ap₂, ◌∙◌, Bool, true, false, if◌then◌else◌, List, [], ◌∷◌, map,
  Option, none, some,
}
use vekst.Prelude.Int.{◌+ℤ◌, ◌-ℤ◌, neg_ℤ, +ℤ_assoc, zero-+ℤ, int_laws}
use vekst.Prelude.Strings.{text_eq}
use vekst.Prelude.Decimal.{big_int}
use vekst.Prelude.Lemmas.{All, big_int-int_text}
use vekst.Prelude.Last.{Last, nowhere, Last-cons}
use vekst.Prelude.Result.{ok}
use vekst.Money.{Money}
use vekst.Money.Sums.{total}
use vekst.Wire.Report.{ReconciliationLine}
use vekst.Data.Report.Cash.{
  Reconciliation, units_of, sum_units, aggregate_reconciliation, in_currency, currency_of,
  CashPeriod, line_of_period, cash_of_period, cash_by_period, picked,
}

-- One amount of every line, as integers.
pub data Amounts (pick : ReconciliationLine → Option Money)
    : List ReconciliationLine → List ℤ → Type 0 where
  none_left : Amounts pick [] []
  amount :
      {l : ReconciliationLine} {ls : List ReconciliationLine} {v : ℤ} {vs : List ℤ}
      → units_of (pick l) ≡ ok v
      → Amounts pick ls vs
      → Amounts pick (l ∷ ls) (v ∷ vs)

units_of-in_currency : (currency : Text) (v : ℤ) → units_of (some (in_currency currency v)) ≡ ok v
unfolding units_of
units_of-in_currency currency v = rw (big_int-int_text v)

sum_units_lem :
    (pick : ReconciliationLine → Option Money) (acc : ℤ) {ls : List ReconciliationLine}
    {vs : List ℤ}
    → Amounts pick ls vs
    → sum_units pick acc ls ≡ ok (acc +ℤ total vs)
unfolding sum_units
sum_units_lem pick acc none_left = ap (λ z. ok z) (omega int_laws)
sum_units_lem pick acc (amount {v} {vs} e rest) =
    rw e (sum_units_lem pick (acc +ℤ v) rest ∙ ap (λ z. ok z) (+ℤ_assoc acc v (total vs)))

sum_units_zero :
    (pick : ReconciliationLine → Option Money) {ls : List ReconciliationLine} {vs : List ℤ}
    → Amounts pick ls vs
    → sum_units pick (pos 0) ls ≡ ok (total vs)
sum_units_zero pick {vs} a = sum_units_lem pick (pos 0) a ∙ ap (λ z. ok z) (zero-+ℤ (total vs))

closing_lem : (o i u t : ℤ) → o +ℤ i -ℤ u -ℤ t ≡ o +ℤ i +ℤ neg_ℤ u +ℤ neg_ℤ t
closing_lem o i u t = omega int_laws

net_lem : (i o : ℤ) → i +ℤ neg_ℤ o ≡ i -ℤ o
net_lem i o = omega int_laws

-- Whenever the amounts of a first line and of those after it are integers, the strip is computed: it opens
-- with the first line's opening balance, its inflow is the exact total of all the lines, its outflow
-- and transfers are the totals with the sign turned, and the closing balance is the sum of those four.
pub aggregate_reconciliation-IsBalanced :
    (first : ReconciliationLine) (lines : List ReconciliationLine) (o : ℤ) (ins outs moves : List ℤ)
    → units_of first.opening ≡ ok o
    → Amounts (λ l. l.money_in) (first ∷ lines) ins
    → Amounts (λ l. l.money_out) (first ∷ lines) outs
    → Amounts (λ l. l.transfers) (first ∷ lines) moves
    → (r : Reconciliation) × (aggregate_reconciliation (first ∷ lines) ≡ ok r)
      × (units_of (some r.opening) ≡ ok o)
      × (units_of (some r.money_in) ≡ ok (total ins))
      × (units_of (some r.money_out) ≡ ok (neg_ℤ (total outs)))
      × (units_of (some r.transfers) ≡ ok (neg_ℤ (total moves)))
      × (units_of (some r.closing)
          ≡ ok (o +ℤ total ins +ℤ neg_ℤ (total outs) +ℤ neg_ℤ (total moves)))
unfolding aggregate_reconciliation
aggregate_reconciliation-IsBalanced first lines o ins outs moves opens a b c =
    let cur = currency_of first.opening in
    let closing = o +ℤ total ins -ℤ total outs -ℤ total moves in
    (
      record {
        opening = in_currency cur o;
        money_in = in_currency cur (total ins);
        money_out = in_currency cur (neg_ℤ (total outs));
        transfers = in_currency cur (neg_ℤ (total moves));
        closing = in_currency cur closing;
      },
      rw opens (
          rw (sum_units_zero (λ l. l.money_in) a) (
            rw (sum_units_zero (λ l. l.money_out) b)
              (rw (sum_units_zero (λ l. l.transfers) c) refl))),
      units_of-in_currency cur o,
      units_of-in_currency cur (total ins),
      units_of-in_currency cur (neg_ℤ (total outs)),
      units_of-in_currency cur (neg_ℤ (total moves)),
      units_of-in_currency cur closing
          ∙ ap (λ z. ok z) (closing_lem o (total ins) (total outs) (total moves)),
    )

-- The amounts of a line that the months are computed from are integers.
abbrev pub IsReadable : ReconciliationLine → Type 0
IsReadable l = ((v : ℤ) × (units_of l.money_in ≡ ok v)) × ((v : ℤ) × (units_of l.money_out ≡ ok v))

abbrev IsReadableOption : Option ReconciliationLine → Type 0
IsReadableOption none = Unit
IsReadableOption (some l) = IsReadable l

later_or :
    (later : Option ReconciliationLine) (same : Bool) (l : ReconciliationLine)
    → IsReadableOption later
    → IsReadable l
    → IsReadableOption (elim later [ some l' ↦ some l' | none ↦ if same then some l else none ])
later_or none true l h k = k
later_or none false l h k = tt
later_or (some l') same l h k = h

line_of_period-IsReadable :
    (period : Text) (lines : List ReconciliationLine)
    → All IsReadable lines
    → IsReadableOption (line_of_period period lines)
unfolding line_of_period
line_of_period-IsReadable period [] h = tt
line_of_period-IsReadable period (l ∷ lines) h =
    later_or (line_of_period period lines) (text_eq l.period period) l
      (line_of_period-IsReadable period lines h.1) h.0

line_of_period-Last :
    (period : Text) (lines : List ReconciliationLine)
    → Last (λ l. l.period) period lines (line_of_period period lines)
unfolding line_of_period
line_of_period-Last period [] = nowhere tt
line_of_period-Last period (l ∷ lines) =
    Last-cons (λ x. x.period) period l lines (line_of_period period lines)
      (line_of_period-Last period lines)

-- What moved by one line, or by none.
abbrev pub Moved : Option ReconciliationLine → ℤ → ℤ → Type 0
Moved none i o = (i ≡ pos 0) × (o ≡ pos 0)
Moved (some l) i o = (units_of l.money_in ≡ ok i) × (units_of l.money_out ≡ ok o)

-- A month's net is what came in by the last line that has its period less what went out by it, and its
-- outflow is shown with the sign turned.
abbrev pub IsNetted : List ReconciliationLine → CashPeriod → Type 0
IsNetted lines c =
    (line : Option ReconciliationLine) × (i o : ℤ) × Last (λ l. l.period) c.period lines line
    × Moved line i o
    × (units_of (some c.money_in) ≡ ok i)
    × (units_of (some c.money_out) ≡ ok (neg_ℤ o))
    × (units_of (some c.net) ≡ ok (i -ℤ o))

zero_read : units_of none ≡ ok (pos 0)
unfolding units_of big_int
zero_read = refl

amounts_of :
    (line : Option ReconciliationLine)
    → IsReadableOption line
    → (i o : ℤ) × (units_of (picked (λ l. l.money_in) line) ≡ ok i)
      × (units_of (picked (λ l. l.money_out) line) ≡ ok o)
      × Moved line i o
amounts_of none h = (pos 0, pos 0, zero_read, zero_read, (refl, refl))
amounts_of (some l) ((i, hi), (o, ho)) = (i, o, hi, ho, (hi, ho))

cash_of_period_lem :
    (currency period : Text) (lines : List ReconciliationLine)
    → All IsReadable lines
    → (c : CashPeriod) × (cash_of_period currency period (line_of_period period lines) ≡ ok c)
      × (c.period ≡ period)
      × IsNetted lines c
unfolding cash_of_period
cash_of_period_lem currency period lines h =
    let (i, o, hi, ho, moved) =
      amounts_of (line_of_period period lines) (line_of_period-IsReadable period lines h) in
    (
      record {
        period = period;
        money_in = in_currency currency i;
        money_out = in_currency currency (neg_ℤ o);
        net = in_currency currency (i +ℤ neg_ℤ o);
      },
      rw hi (rw ho refl),
      refl,
      (
        line_of_period period lines,
        i,
        o,
        line_of_period-Last period lines,
        moved,
        units_of-in_currency currency i,
        units_of-in_currency currency (neg_ℤ o),
        units_of-in_currency currency (i +ℤ neg_ℤ o) ∙ ap (λ z. ok z) (net_lem i o),
      ),
    )

-- When the inflow and the outflow of every line are integers, the months of money are computed: one for
-- each period of the report and in its order, every one with the amounts of the last line that has
-- its period, or with zero where no line has it, and with a net of inflow less outflow.
pub cash_by_period-IsNetted :
    (periods : List Text) (lines : List ReconciliationLine) (currency : Text)
    → All IsReadable lines
    → (cs : List CashPeriod) × (cash_by_period periods lines currency ≡ ok cs)
      × (map (λ c. c.period) cs ≡ periods)
      × All (IsNetted lines) cs
unfolding cash_by_period
cash_by_period-IsNetted [] lines currency h = ([], refl, refl, tt)
cash_by_period-IsNetted (period ∷ periods) lines currency h =
    let (c, ec, same, netted) = cash_of_period_lem currency period lines h in
    let (cs, ecs, all_same, all_netted) = cash_by_period-IsNetted periods lines currency h in
    (c ∷ cs, rw ec (rw ecs refl), ap₂ (λ x y. x ∷ y) same all_same, (netted, all_netted))
