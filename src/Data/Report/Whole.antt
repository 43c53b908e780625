-- ===== src/Data/Report/Whole.antt =====
-- A report of readable amounts is computed as a whole.
use vekst.Prelude.{
  Text, codes, ℕ, zero, suc, ◌≡◌, refl, ap, ◌⊎◌, inl, inr, ℤ, pos, Bool, true, false, if◌then◌else◌,
  List, [], ◌∷◌, map, Option, none, some, length, get_elem?,
}
use vekst.Prelude.Int.{◌+ℤ◌}
use vekst.Prelude.Strings.{text_eq}
use vekst.Prelude.Decimal.{big_int}
use vekst.Prelude.Lemmas.{All, All-imp}
use vekst.Prelude.Last.{Last, nowhere, Last-cons}
use vekst.Prelude.Result.{ok}
use vekst.Prelude.Returns.{Returns, Returns-bind}
use vekst.Money.{Money}
use vekst.Wire
use vekst.Wire.Report.{ReportBucketLine, ReconciliationLine, ReportVersions}
use vekst.Data.Report.{
  Basis, ReportLine, Report, line_from_proto, line_by_code, sub_minor_units, value_at, total_or,
  expenses_from, report_from_proto,
}
use vekst.Data.Report.Costs.{Costs, none_left, cost, expenses_from-Costs}
use vekst.Data.Report.Cash.{
  units_of, sum_units, zero_money, aggregate_reconciliation, cash_by_period,
}
use vekst.Data.Report.Cash.Laws.{IsReadable, cash_by_period-IsNetted}

abbrev pub IsInteger : Money → Type 0
IsInteger m = (z : ℤ) × (big_int m.minor_units ≡ some z)

-- A line whose total and values are integers.
abbrev pub IsReadableLine : ReportLine → Type 0
IsReadableLine l = IsInteger l.total × All IsInteger l.values

-- A line of the reconciliation whose amounts are.
abbrev pub IsReadableMove : ReconciliationLine → Type 0
IsReadableMove l =
    IsReadable l
    × ((v : ℤ) × (units_of l.opening ≡ ok v))
    × ((v : ℤ) × (units_of l.transfers ≡ ok v))

zero_money-IsInteger : IsInteger zero_money
unfolding big_int
zero_money-IsInteger = (pos 0, refl)

abbrev OrNone : (ReportLine → Type 0) → Option ReportLine → Type 0
OrNone P none = Unit
OrNone P (some l) = P l

line_or :
    (P : ReportLine → Type 0) (later : Option ReportLine) (same : Bool) (l : ReportLine)
    → OrNone P later
    → P l
    → OrNone P (elim later [ some l' ↦ some l' | none ↦ if same then some l else none ])
line_or P none true l h k = k
line_or P none false l h k = tt
line_or P (some l') same l h k = h

line_by_code-OrNone :
    (P : ReportLine → Type 0) (code : Text) (ls : List ReportLine)
    → All P ls
    → OrNone P (line_by_code code ls)
unfolding line_by_code
line_by_code-OrNone P code [] h = tt
line_by_code-OrNone P code (l ∷ ls) h =
    line_or P (line_by_code code ls) (text_eq l.category_id code) l
      (line_by_code-OrNone P code ls h.1) h.0

line_by_code-Last :
    (code : Text) (ls : List ReportLine) → Last (λ l. l.category_id) code ls (line_by_code code ls)
unfolding line_by_code
line_by_code-Last code [] = nowhere tt
line_by_code-Last code (l ∷ ls) =
    Last-cons (λ x. x.category_id) code l ls (line_by_code code ls) (line_by_code-Last code ls)

total_or-IsInteger :
    (m : Money) (o : Option ReportLine)
    → IsInteger m
    → OrNone IsReadableLine o
    → IsInteger (total_or m o)
total_or-IsInteger m none h k = h
total_or-IsInteger m (some l) h k = k.0

value_of :
    (ms : List Money) (i : ℕ)
    → All IsInteger ms
    → (get_elem? ms i ≡ none) ⊎ ((m : Money) × (get_elem? ms i ≡ some m) × IsInteger m)
value_of [] i h = inl refl
value_of (m ∷ ms) zero h = inr (m, refl, h.0)
value_of (m ∷ ms) (suc i) h = value_of ms i h.1

value_at-IsInteger :
    (o : Option ReportLine) (i : ℕ) → OrNone IsReadableLine o → IsInteger (value_at o i)
value_at-IsInteger none i h = zero_money-IsInteger
value_at-IsInteger (some l) i h = elim (value_of l.values i h.1) [
  | inl e ↦ rw e zero_money-IsInteger
  | inr (m, e, a) ↦ rw e a
]

sub_minor_units-Returns :
    (a b : Money)
    → IsInteger a
    → IsInteger b
    → Returns (λ _. Unit) (sub_minor_units a.minor_units b.minor_units)
unfolding sub_minor_units
sub_minor_units-Returns a b (x, h) (y, k) = rw (h, k) tt

length-Costs :
    (revenue cm : Option ReportLine) {i : ℕ} {ps : List Text} {ms : List Money}
    → Costs revenue cm i ps ms
    → length ms ≡ length ps
length-Costs revenue cm none_left = refl
length-Costs revenue cm (cost x y p q r rest) = ap suc (length-Costs revenue cm rest)

expenses_from-Returns :
    (revenue cm : Option ReportLine) (currency : Text) (periods : List Text)
    → OrNone IsReadableLine revenue
    → OrNone IsReadableLine cm
    → Returns (λ ms. length ms ≡ length periods) (expenses_from revenue cm currency 0 periods)
expenses_from-Returns revenue cm currency periods h k =
    elim (expenses_from-Costs revenue cm currency 0 periods) [
      | inl (ms, e, costs) ↦ rw e (length-Costs revenue cm costs)
      | inr (j, less, inl bad, e) ↦
          let (z, q) = value_at-IsInteger revenue j h in absurd (cc (bad, q))
      | inr (j, less, inr bad, e) ↦ let (z, q) = value_at-IsInteger cm j k in absurd (cc (bad, q))
    ]

cash_by_period-Returns :
    (periods : List Text) (lines : List ReconciliationLine) (currency : Text)
    → All IsReadable lines
    → Returns (λ cs. map (λ c. c.period) cs ≡ periods) (cash_by_period periods lines currency)
cash_by_period-Returns periods lines currency h =
    let (cs, e, same, _) = cash_by_period-IsNetted periods lines currency h in rw e same

sum_units-Returns :
    (pick : ReconciliationLine → Option Money) (acc : ℤ) (lines : List ReconciliationLine)
    → All (λ l. (v : ℤ) × (units_of (pick l) ≡ ok v)) lines
    → Returns (λ _. Unit) (sum_units pick acc lines)
unfolding sum_units
sum_units-Returns pick acc [] h = tt
sum_units-Returns pick acc (l ∷ lines) h =
    let (v, e) = h.0 in rw e (sum_units-Returns pick (acc +ℤ v) lines h.1)

aggregate_reconciliation-Returns :
    (lines : List ReconciliationLine)
    → All IsReadableMove lines
    → Returns (λ _. Unit) (aggregate_reconciliation lines)
unfolding aggregate_reconciliation
aggregate_reconciliation-Returns [] h = tt
aggregate_reconciliation-Returns (l ∷ lines) h =
    let (v, e) = (h.0).1 in
    let all = l ∷ lines in
    rw e (
      Returns-bind (λ _. Unit) (λ _. Unit) (sum_units (λ x. x.money_in) (pos 0) all) _
        (sum_units-Returns (λ x. x.money_in) (pos 0) all
          (All-imp IsReadableMove _ all (λ x k. (k.0).0) h))
        (λ _ _.
          Returns-bind (λ _. Unit) (λ _. Unit) (sum_units (λ x. x.money_out) (pos 0) all) _
            (sum_units-Returns (λ x. x.money_out) (pos 0) all
              (All-imp IsReadableMove _ all (λ x k. (k.0).1) h))
            (λ _ _.
              Returns-bind (λ _. Unit) (λ _. Unit) (sum_units (λ x. x.transfers) (pos 0) all) _
                (sum_units-Returns (λ x. x.transfers) (pos 0) all
                  (All-imp IsReadableMove _ all (λ x k. k.2) h))
                (λ _ _. tt))))

abbrev nothing : Text → Money
nothing currency = record { minor_units = codes "0"; currency_code = currency }

abbrev IsTotalOr : Money → Option ReportLine → Money → Type 0
IsTotalOr default none m = m ≡ default
IsTotalOr default (some l) m = m ≡ l.total

-- An amount is the total of the last line that has a code, or a default where no line has it.
abbrev IsTotalOf : Text → Money → List ReportLine → Money → Type 0
IsTotalOf code default lines m =
    (line : Option ReportLine) × Last (λ l. l.category_id) code lines line
    × IsTotalOr default line m

-- The figures that the headline, the table, the months and the charts are drawn from belong together.
abbrev pub IsWhole : List Text → List Wire.Report.ReportLine → Report → Type 0
IsWhole periods proto_lines r =
    (r.periods ≡ periods)
    × (r.lines ≡ map line_from_proto proto_lines)
    × IsTotalOf (codes "01") zero_money r.lines r.revenue_total
    × IsTotalOf (codes "95") (nothing r.currency_code) r.lines r.net_total
    × (length r.expenses_by_period ≡ length periods)
    × (map (λ c. c.period) r.cash ≡ periods)

is_total : (default : Money) (o : Option ReportLine) → IsTotalOr default o (total_or default o)
is_total default none = refl
is_total default (some l) = refl

line_by_code-IsTotalOf :
    (code : Text) (default : Money) (ls : List ReportLine)
    → IsTotalOf code default ls (total_or default (line_by_code code ls))
line_by_code-IsTotalOf code default ls =
    (line_by_code code ls, line_by_code-Last code ls, is_total default (line_by_code code ls))

-- Whatever lines, buckets and versions core sends, a report is computed if the totals, the values and the
-- amounts of the reconciliation are integers: it has every line in the order of the wire, the totals of
-- the headline for revenue and net income are those of the last of its lines that has the code "01" or
-- "95", or zero where no line has it, and there is one figure of expenses and of cash for each period.
pub report_from_proto-IsWhole :
    (basis : Basis) (periods : List Text) (proto_lines : List Wire.Report.ReportLine)
    (buckets : List ReportBucketLine) (moves : List ReconciliationLine)
    (versions : Option ReportVersions)
    → All IsReadableLine (map line_from_proto proto_lines)
    → All IsReadableMove moves
    → Returns
        (IsWhole periods proto_lines)
        (report_from_proto basis periods proto_lines buckets moves versions)
unfolding report_from_proto
report_from_proto-IsWhole basis periods proto_lines buckets moves versions h k =
    let lines = map line_from_proto proto_lines in
    let revenue = line_by_code (codes "01") lines in
    let cm = line_by_code (codes "93") lines in
    let r = line_by_code-OrNone IsReadableLine (codes "01") lines h in
    let c = line_by_code-OrNone IsReadableLine (codes "93") lines h in
    let whole = IsWhole periods proto_lines in
    Returns-bind (λ _. Unit) whole
      (sub_minor_units (total_or zero_money revenue).minor_units
        (total_or zero_money cm).minor_units)
      _
      (sub_minor_units-Returns (total_or zero_money revenue) (total_or zero_money cm)
        (total_or-IsInteger zero_money revenue zero_money-IsInteger r)
        (total_or-IsInteger zero_money cm zero_money-IsInteger c))
      (λ _ _.
        Returns-bind (λ ms. length ms ≡ length periods) whole (expenses_from revenue cm _ 0 periods)
          _ (expenses_from-Returns revenue cm _ periods r c)
          (λ _ counted.
            Returns-bind (λ cs. map (λ x. x.period) cs ≡ periods) whole
              (cash_by_period periods moves _) _
              (cash_by_period-Returns periods moves _
                (All-imp IsReadableMove IsReadable moves (λ _ m. m.0) k))
              (λ _ dated.
                Returns-bind (λ _. Unit) whole (aggregate_reconciliation moves) _
                  (aggregate_reconciliation-Returns moves k)
                  (λ _ _. (
                    refl,
                    refl,
                    line_by_code-IsTotalOf (codes "01") zero_money lines,
                    line_by_code-IsTotalOf (codes "95") _ lines,
                    counted,
                    dated,
                  )))))
