-- ===== src/App/PeriodPicker/Laws.antt =====
-- Months to texts and back, and the order of the two months of a range.
use native.Mathlib.Decide.{dec_lt}
use vekst.Prelude.{
  ℕ, ◌+◌, ◌-◌, ◌*◌, ◌/◌, ◌%◌, ◌≤◌, ◌<◌, ◌≡◌, refl, ap, ◌∙◌, [], ◌∷◌, some, true, false, arith, ltb,
  ◌==◌,
}
use vekst.Prelude.Strings.{Text, pad_start, split_on}
use vekst.Prelude.Decimal.{digits_of, scan}
use vekst.Prelude.Lemmas.{nat_text_four, nat_text_one, nat_text_two, digit_ten}
use vekst.Ui.Period.{Month, PeriodRange, is_period, parse, value}
use vekst.Ui.PeriodPreference.Laws.{IsRange}
use vekst.App.PeriodPicker.{
  IsMonth, Picker, IsBounded, Picked, from_picked, to_picked, then_picked, bound_of, from_field,
  to_field, month_field, local_date, to_local_month, from_local_month, number_of, change_from,
  change_to,
}

-- The seven signs of a month.
abbrev signs : Month → Text
signs d =
    (b'0' + d.year / 1000)
    ∷ (b'0' + d.year / 100 % 10)
    ∷ (b'0' + d.year / 10 % 10)
    ∷ (b'0' + d.year % 10)
    ∷ b'-'
    ∷ (b'0' + d.month / 10)
    ∷ (b'0' + d.month % 10)
    ∷ []

from_local_month-signs : (d : Month) → IsMonth d → from_local_month d ≡ signs d
unfolding from_local_month pad_start
from_local_month-signs d h =
    rw (nat_text_four d.year h.year_low h.year_high) (elim (dec_lt d.month 10) [
      | yes small ↦ rw (nat_text_one d.month small) (
          let q : d.month / 10 ≡ 0 = omega (arith, small) in
          let r : d.month % 10 ≡ d.month = omega (arith, small) in rw (q, r) refl)
      | no big ↦ rw (nat_text_two d.month (omega (arith, big)) (omega (arith, h.month_high))) refl
    ])

signs-is_period : (d : Month) → IsMonth d → is_period (signs d) ≡ true
unfolding is_period
signs-is_period d h = ground (arith, h.year_low, h.year_high, h.month_low, h.month_high)

signs-parse : (d : Month) → IsMonth d → parse (signs d) ≡ some d
unfolding parse
signs-parse d h =
    let y : value (b'0' + d.year / 1000) * 1000
          + value (b'0' + d.year / 100 % 10) * 100
          + value (b'0' + d.year / 10 % 10) * 10
          + value (b'0' + d.year % 10)
        ≡ d.year =
      omega arith in
    let m : value (b'0' + d.month / 10) * 10 + value (b'0' + d.month % 10) ≡ d.month =
      omega arith in
    let late : ltb d.year 100 ≡ false = ground (arith, h.year_low) in
    rw (signs-is_period d h) (rw (y, m) (rw late refl))

scan_next : (n v : ℕ) (s : Text) → v < 10 → scan 10 n ((b'0' + v) ∷ s) ≡ scan 10 (n * 10 + v) s
unfolding scan
scan_next n v s h = rw (digit_ten v h, scan) refl

four_digits :
    (a b c e : ℕ)
    → a < 10
    → b < 10
    → c < 10
    → e < 10
    → digits_of 10 ((b'0' + a) ∷ (b'0' + b) ∷ (b'0' + c) ∷ (b'0' + e) ∷ [])
      ≡ some (a * 1000 + b * 100 + c * 10 + e)
unfolding digits_of scan
four_digits a b c e h k l m =
    scan_next 0 a ((b'0' + b) ∷ (b'0' + c) ∷ (b'0' + e) ∷ []) h
    ∙ scan_next (0 * 10 + a) b ((b'0' + c) ∷ (b'0' + e) ∷ []) k
    ∙ scan_next ((0 * 10 + a) * 10 + b) c ((b'0' + e) ∷ []) l
    ∙ scan_next (((0 * 10 + a) * 10 + b) * 10 + c) e [] m
    ∙ ap some (omega arith)

two_digits :
    (a b : ℕ) → a < 10 → b < 10 → digits_of 10 ((b'0' + a) ∷ (b'0' + b) ∷ []) ≡ some (a * 10 + b)
unfolding digits_of scan
two_digits a b h k =
    scan_next 0 a ((b'0' + b) ∷ []) h ∙ scan_next (0 * 10 + a) b [] k ∙ ap some (omega arith)

no_dash : (a : ℕ) → ((b'0' + a) == b'-') ≡ false
no_dash a = ground arith

split_signs :
    (a b c e f g : ℕ)
    → split_on b'-' []
        ((b'0' + a) ∷ (b'0' + b) ∷ (b'0' + c) ∷ (b'0' + e) ∷ b'-' ∷ (b'0' + f) ∷ (b'0' + g) ∷ [])
      ≡ ((b'0' + a) ∷ (b'0' + b) ∷ (b'0' + c) ∷ (b'0' + e) ∷ [])
        ∷ ((b'0' + f) ∷ (b'0' + g) ∷ [])
        ∷ []
unfolding split_on
split_signs a b c e f g = rw (no_dash a, no_dash b, no_dash c, no_dash e, no_dash f, no_dash g) refl

local_date_self : (d : Month) → IsMonth d → local_date d.year d.month ≡ d
local_date_self d h =
    let late : ltb d.year 100 ≡ false = ground (arith, h.year_low) in
    let y : (d.year * 12 + d.month - 1) / 12 ≡ d.year = omega (arith, h.month_low, h.month_high) in
    let m : (d.year * 12 + d.month - 1) % 12 + 1 ≡ d.month =
      omega (arith, h.month_low, h.month_high) in
    rw late (rw (y, m) refl)

signs-to_local_month : (d : Month) → IsMonth d → to_local_month (signs d) ≡ some d
unfolding to_local_month
signs-to_local_month d h =
    let year : d.year / 1000 * 1000 + d.year / 100 % 10 * 100 + d.year / 10 % 10 * 10 + d.year % 10
        ≡ d.year =
      omega arith in
    let month : d.month / 10 * 10 + d.month % 10 ≡ d.month = omega arith in
    rw
      (
        split_signs (d.year / 1000) (d.year / 100 % 10) (d.year / 10 % 10) (d.year % 10)
            (d.month / 10) (d.month % 10),
        four_digits (d.year / 1000) (d.year / 100 % 10) (d.year / 10 % 10) (d.year % 10)
            (omega (arith, h.year_high)) (omega arith) (omega arith) (omega arith),
        two_digits (d.month / 10) (d.month % 10) (omega (arith, h.month_high)) (omega arith),
        year,
        month,
      )
      (ap some (local_date_self d h))

-- What the picker writes for a month of its calendar is a valid period; read back by the picker, in the
-- browser's own time, it is that month, and so it is read by the formatting of periods, in UTC.
pub from_local_month-IsRead :
    (d : Month)
    → IsMonth d
    → (is_period (from_local_month d) ≡ true)
      × (to_local_month (from_local_month d) ≡ some d)
      × (parse (from_local_month d) ≡ some d)
from_local_month-IsRead d h =
    rw (from_local_month-signs d h) (signs-is_period d h, signs-to_local_month d h, signs-parse d h)

-- Two valid periods that the picker reads as months.
abbrev pub IsReadable : PeriodRange → Type 0
IsReadable r =
    IsRange r × ((a b : Month) × (to_local_month r.from ≡ some a) × (to_local_month r.to ≡ some b))

-- And the first is not behind the last.
abbrev pub IsInOrder : PeriodRange → Type 0
IsInOrder r =
    IsRange r
    × ((a b : Month) × (to_local_month r.from ≡ some a)
        × (to_local_month r.to ≡ some b)
        × (number_of a ≤ number_of b))

bound_lem : (s : Text) {b : Month} → to_local_month s ≡ some b → bound_of (some s) ≡ some b
unfolding to_local_month split_on digits_of
bound_lem [] h = absurd (cc h)
bound_lem (c ∷ s) h = h

in_order : (r : PeriodRange) → IsInOrder r → IsReadable r
in_order r (valid, (a, b, x, y, z)) = (valid, (a, b, x, y))

-- However a range of two readable months came about, in the order of the months or not, as from a link, and
-- however often a month is picked in one of its two fields after that, once at least, with a date
-- picker of four-digit years that keeps to the bounds that it is given: the range has two valid months again, the first
-- not behind the last.
pub Picked-IsInOrder :
    (offers : Picker)
    → IsBounded offers
    → {r s : PeriodRange} → Picked offers r s
    → IsReadable r
    → IsInOrder s
unfolding change_from change_to from_field to_field month_field
Picked-IsInOrder offers k {r} (from_picked d h) ((p, q), (a, b, x, y)) =
    let (i, j, _) = from_local_month-IsRead d (k.month (from_field r) d h) in
    ((i, q), (d, b, j, y, k.upper (from_field r) d b h (bound_lem r.to y)))
Picked-IsInOrder offers k {r} (to_picked d h) ((p, q), (a, b, x, y)) =
    let (i, j, _) = from_local_month-IsRead d (k.month (to_field r) d h) in
    ((p, i), (a, d, x, j, k.lower (to_field r) d a h (bound_lem r.from x)))
Picked-IsInOrder offers k (then_picked {s} first more) readable =
    Picked-IsInOrder offers k more (in_order s (Picked-IsInOrder offers k first readable))
