-- ===== src/Ui/Period.antt =====
-- web/src/ui/period.ts: months as `YYYY-MM`. How `Intl.DateTimeFormat` words a month is a parameter.
use vekst.Prelude.{
  Text, codes, ℕ, ◌+◌, ◌-◌, ◌*◌, [], ◌∷◌, ◌++◌, Option, none, some, Bool, false, ◌&&◌, ◌||◌, ◌==◌,
  if◌then◌else◌, leb, ltb,
}
use vekst.Prelude.Strings.{pad_start}
use vekst.Prelude.Decimal.{nat_text}
use vekst.Locale.{Locale}

-- What the functions read of a Date: the UTC year and the month from 1.
pub record Month : Type 0 where
  pub year : ℕ
  pub month : ℕ

pub record PeriodRange : Type 0 where
  pub from : Text
  pub to : Text

unfoldable pub default_range : Month → PeriodRange
unfolding nat_text pad_start
default_range now = record {
  from = nat_text now.year ++ codes "-01";
  to = nat_text now.year ++ b'-' ∷ pad_start 2 b'0' (nat_text now.month);
}

abbrev pub is_digit : ℕ → Bool
is_digit c = leb b'0' c && leb c b'9'

-- /^\d{4}-(0[1-9]|1[0-2])$/
unfoldable pub is_period : Text → Bool
is_period (a ∷ b ∷ c ∷ d ∷ dash ∷ m ∷ n ∷ []) =
    (is_digit a && is_digit b && is_digit c && is_digit d)
    && dash == b'-'
    && ((m == b'0' && leb b'1' n && leb n b'9') || (m == b'1' && leb b'0' n && leb n b'2'))
is_period _ = false

abbrev pub value : ℕ → ℕ
value c = c - b'0'

-- Date.UTC takes a year below 100 for one of the twentieth century.
abbrev utc_year : ℕ → ℕ
utc_year y = if ltb y 100 then 1900 + y else y

unfoldable pub parse : Text → Option Month
parse (a ∷ b ∷ c ∷ d ∷ dash ∷ m ∷ n ∷ []) =
    if is_period (a ∷ b ∷ c ∷ d ∷ dash ∷ m ∷ n ∷ [])
    then some (record {
      year = utc_year (value a * 1000 + value b * 100 + value c * 10 + value d);
      month = value m * 10 + value n;
    })
    else none
parse _ = none

-- Intl.DateTimeFormat, with a short month, a short month and the year, a long month and the year.
pub record DateFormats : Type 0 where
  pub short_month : Locale → Month → Text
  pub short_month_year : Locale → Month → Text
  pub long_month_year : Locale → Month → Text

abbrev en_dash : Text
en_dash = codes " – "

abbrev range_text : DateFormats → Locale → Month → Month → Text
range_text f locale a b =
    if a.year == b.year
    then f.short_month locale a ++ (en_dash ++ f.short_month_year locale b)
    else f.short_month_year locale a ++ (en_dash ++ f.short_month_year locale b)

abbrev range_or_raw : DateFormats → Text → Text → Locale → Option Month → Option Month → Text
range_or_raw f from to locale (some a) (some b) = range_text f locale a b
range_or_raw f from to locale _ _ = from ++ (en_dash ++ to)

unfoldable pub format_period_range : DateFormats → Text → Text → Locale → Text
unfolding parse
format_period_range f from to locale = range_or_raw f from to locale (parse from) (parse to)

unfoldable pub format_period_short : DateFormats → Text → Locale → Text
unfolding parse
format_period_short f period locale = elim (parse period) [
  | none ↦ period
  | some d ↦ f.short_month locale d
]

unfoldable pub format_period_long : DateFormats → Text → Locale → Text
unfolding parse
format_period_long f period locale = elim (parse period) [
  | none ↦ period
  | some d ↦ f.long_month_year locale d
]
