-- ===== src/App/PeriodPicker.antt =====
-- web/src/app/PeriodPicker.tsx: the two months of a range, each picked between the bounds that the
-- other sets. The calendar itself is a library's.
pub mod Laws
use vekst.Prelude.{
  codes, ℕ, suc, ◌+◌, ◌-◌, ◌*◌, ◌/◌, ◌%◌, ◌≤◌, ◌<◌, ◌≡◌, List, [], ◌∷◌, ◌++◌, Option, none, some,
  Bool, true, ltb, if◌then◌else◌,
}
use vekst.Prelude.Strings.{Text, pad_start, split_on}
use vekst.Prelude.Decimal.{digits_of, nat_text}
use vekst.Ui.Period.{Month, PeriodRange}

-- new Date(year, month - 1, 1): a year below 100 is one of the twentieth century, and a month outside the
-- year is one of another year.
abbrev local_date : ℕ → ℕ → Month
local_date year month =
    let y = if ltb year 100 then 1900 + year else year in
    let months = y * 12 + month - 1 in record { year = months / 12; month = months % 12 + 1 }

-- month.split("-").map(Number), of which the first two are used.
abbrev date_of : List (Option ℕ) → Option Month
date_of (some y ∷ some m ∷ rest) = some (local_date y m)
date_of _ = none

abbrev numbers : List Text → List (Option ℕ)
numbers [] = []
numbers (s ∷ rest) = digits_of 10 s ∷ numbers rest

-- Of the texts that `Number` reads only those of digits are followed: `none` is any other.
unfoldable pub to_local_month : Text → Option Month
unfolding split_on digits_of
to_local_month month = date_of (numbers (split_on b'-' [] month))

unfoldable pub from_local_month : Month → Text
unfolding nat_text pad_start
from_local_month date = nat_text date.year ++ b'-' ∷ pad_start 2 b'0' (nat_text date.month)

-- Months in a row: what is compared where one month is before another.
abbrev number_of : Month → ℕ
number_of d = d.year * 12 + d.month

-- What MonthField gives to the date picker of the library. A text that is no month is not followed.
pub record Field : Type 0 where
  pub selected : Option Month
  pub min_date : Option Month
  pub max_date : Option Month

-- minMonth ? toLocalMonth(minMonth) : undefined
abbrev pub bound_of : Option Text → Option Month
bound_of none = none
bound_of (some []) = none
bound_of (some (c ∷ s)) = to_local_month (c ∷ s)

unfoldable pub month_field : Text → (min_month max_month : Option Text) → Field
unfolding to_local_month
month_field value min_month max_month = record {
  selected = to_local_month value;
  min_date = bound_of min_month;
  max_date = bound_of max_month;
}

-- The two fields of PeriodPicker
unfoldable pub from_field : PeriodRange → Field
unfolding month_field
from_field r = month_field r.from none (some r.to)

unfoldable pub to_field : PeriodRange → Field
unfolding month_field
to_field r = month_field r.to (some r.from) none

-- onChange({ from: value, to }) and onChange({ from, to: value }), of a month that the calendar offers.
unfoldable pub change_from : Month → PeriodRange → PeriodRange
unfolding from_local_month
change_from date r = record { from = from_local_month date; to = r.to }

unfoldable pub change_to : Month → PeriodRange → PeriodRange
unfolding from_local_month
change_to date r = record { from = r.from; to = from_local_month date }

-- A month that a calendar has: the library shows years of four digits.
pub record IsMonth (d : Month) : Type 0 where
  pub year_low : 1000 ≤ d.year
  pub year_high : d.year < 10000
  pub month_low : 1 ≤ d.month
  pub month_high : d.month ≤ 12

-- What the library lets a person pick in a field.
abbrev pub Picker : Type 0
Picker = Field → Month → Bool

-- Its documented behaviour: nothing before minDate and nothing after maxDate is picked, and its years are
-- of four digits.
pub record IsBounded (offers : Picker) : Type 0 where
  pub month : (f : Field) (d : Month) → offers f d ≡ true → IsMonth d
  pub lower :
      (f : Field) (d bound : Month)
      → offers f d ≡ true
      → f.min_date ≡ some bound
      → number_of bound ≤ number_of d
  pub upper :
      (f : Field) (d bound : Month)
      → offers f d ≡ true
      → f.max_date ≡ some bound
      → number_of d ≤ number_of bound

-- A month is picked in one of the two fields of a range, once or more.
pub data Picked (offers : Picker) : PeriodRange → PeriodRange → Type 0 where
  from_picked :
      {r : PeriodRange} (d : Month)
      → offers (from_field r) d ≡ true
      → Picked offers r (change_from d r)
  to_picked :
      {r : PeriodRange} (d : Month) → offers (to_field r) d ≡ true → Picked offers r (change_to d r)
  then_picked : {r s u : PeriodRange} → Picked offers r s → Picked offers s u → Picked offers r u
