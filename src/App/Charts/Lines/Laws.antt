-- ===== src/App/Charts/Lines/Laws.antt =====
-- The lines that are left by the tests of the charts.
use mathlib.Core.Path.{subst}
use vekst.Prelude.{
  codes, ℤ, pos, ◌≡◌, inl, inr, List, [], ◌∷◌, some, Bool, true, false, if◌then◌else◌, Bool-cases,
}
use vekst.Prelude.Int.{ltb_ℤ}
use vekst.Prelude.Strings.{text_eq}
use vekst.Prelude.Decimal.{big_int}
use vekst.Prelude.Lemmas.{All}
use vekst.Prelude.Result.{ok}
use vekst.Prelude.Returns.{Returns, Returns-bind}
use vekst.Data.Report.{ReportLine}
use vekst.App.Charts.Lines.{revenue_line, is_cost, cost_lines, positive_lines}

-- A total that is an integer, and one above zero.
abbrev pub HasUnits : ReportLine → Type 0
HasUnits l = (z : ℤ) × (big_int l.total.minor_units ≡ some z)

abbrev pub HasCost : ReportLine → Type 0
HasCost l = (z : ℤ) × (big_int l.total.minor_units ≡ some z) × (ltb_ℤ (pos 0) z ≡ true)

kept-HasCost :
    (l : ReportLine) (z : ℤ) (rest : List ReportLine)
    → big_int l.total.minor_units ≡ some z
    → All HasCost rest
    → All HasCost (if ltb_ℤ (pos 0) z then l ∷ rest else rest)
kept-HasCost l z rest e h = elim (Bool-cases (ltb_ℤ (pos 0) z)) [
  | inl p ↦ rw p ((z, e, p), h)
  | inr p ↦ rw p h
]

pub positive_lines-HasCost :
    (ls : List ReportLine) → All HasUnits ls → Returns (All HasCost) (positive_lines ls)
unfolding positive_lines
positive_lines-HasCost [] h = tt
positive_lines-HasCost (l ∷ ls) h =
    let (z, e) = h.0 in
    rw e (
      Returns-bind (All HasCost) (All HasCost) (positive_lines ls)
        (λ rest. ok (if ltb_ℤ (pos 0) z then l ∷ rest else rest)) (positive_lines-HasCost ls h.1)
        (λ rest k. kept-HasCost l z rest e k))

pub cost_lines-All {κ} :
    (P : ReportLine → Type κ) (ls : List ReportLine) → All P ls → All P (cost_lines ls)
unfolding cost_lines
cost_lines-All P [] h = tt
cost_lines-All P (l ∷ ls) h = elim (Bool-cases (is_cost l)) [
  | inl e ↦ rw e (h.0, cost_lines-All P ls h.1)
  | inr e ↦ rw e (cost_lines-All P ls h.1)
]

-- Each line that is left is a cost.
pub cost_lines-is_cost {κ} :
    (P : ReportLine → Type κ) (ls : List ReportLine)
    → All P ls
    → All (λ l. (is_cost l ≡ true) × P l) (cost_lines ls)
unfolding cost_lines
cost_lines-is_cost P [] h = tt
cost_lines-is_cost P (l ∷ ls) h = elim (Bool-cases (is_cost l)) [
  | inl e ↦ rw e ((e, h.0), cost_lines-is_cost P ls h.1)
  | inr e ↦ rw e (cost_lines-is_cost P ls h.1)
]

pub revenue_line-All {κ} :
    (P : ReportLine → Type κ) (ls : List ReportLine) {l : ReportLine}
    → All P ls
    → revenue_line ls ≡ some l
    → P l
unfolding revenue_line
revenue_line-All P [] h e = absurd (cc e)
revenue_line-All P (x ∷ ls) {l} h e =
    go (text_eq x.category_id (codes "01")) (revenue_line-All P ls h.1) e
  where
    go :
        (b : Bool)
        → (revenue_line ls ≡ some l → P l)
        → (if b then some x else revenue_line ls) ≡ some l
        → P l
    go true later q = subst P (cc q) h.0
    go false later q = later q
