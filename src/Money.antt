-- ===== src/Money.antt =====
-- web/src/money.ts. Amounts are texts of minor units, summed as BigInt. What `Intl.NumberFormat`
-- does with an integer in the two locales is written out: groups of three, the locale's marks.
pub mod Currency
pub mod Strip
pub mod Parts
pub mod Figure
pub mod Sums
mod Tests
use vekst.Prelude.{
  Text, codes, ℕ, zero, suc, ◌+◌, ◌-◌, ◌*◌, ◌==◌, List, [], ◌∷◌, ◌++◌, Bool, true, false, Option,
  none, some, ℤ, pos, negsuc, if◌then◌else◌, take, drop, length,
}
use mathlib.Core.List.{reverse}
use vekst.Prelude.Int.{neg_ℤ, quot_ℤ, ltb_ℤ, ◌*ℤ◌, ◌+ℤ◌}
use vekst.Prelude.Strings.{starts_with, pad_start, but_last, at_last}
use vekst.Prelude.Decimal.{big_int, int_text, nat_text}
use vekst.Prelude.Result.{Result, ok, err, or_throw, syntax_error, unknown_currency, ◌>>=◌}
use vekst.Locale.{Locale, en, ru}
use Currency.{exponent_of}

pub record Money : Type 0 where
  pub minor_units : Text
  pub currency_code : Text

-- U+2212
abbrev pub minus : ℕ
minus = 0x2212

abbrev pub no_data : Text
no_data = 0x2014 ∷ []

unfoldable pub locale_tag : Locale → Text
locale_tag en = codes "en-GB"
locale_tag ru = codes "ru-RU"

unfoldable pub decimal_separator : Locale → ℕ
decimal_separator en = b'.'
decimal_separator ru = b','

-- `ru` groups with a no-break space.
unfoldable pub group_separator : Locale → ℕ
group_separator en = b','
group_separator ru = 0xa0

-- Over digits from the right: `left` more before the next mark.
unfoldable pub group_from : ℕ → ℕ → Text → Text
group_from mark left [] = []
group_from mark zero (c ∷ s) = mark ∷ c ∷ group_from mark 2 s
group_from mark (suc left) (c ∷ s) = c ∷ group_from mark left s

unfoldable pub group : ℕ → Text → Text
unfolding group_from
group mark s = reverse (group_from mark 3 (reverse s))

-- new Intl.NumberFormat(tag).format(value)
unfoldable pub format_integer : Locale → ℤ → Text
unfolding group group_separator
format_integer locale (pos n) = group (group_separator locale) (nat_text n)
format_integer locale (negsuc n) = b'-' ∷ group (group_separator locale) (nat_text (suc n))

abbrev unsigned : Bool → Text → Text
unsigned negative s = if negative then drop 1 s else s

abbrev signed : Bool → Text → Text
signed negative body = if negative then minus ∷ body else body

-- From the padded digits on.
unfoldable pub format_digits : Bool → Text → ℕ → Locale → Result Text
unfolding big_int format_integer decimal_separator
format_digits negative digits exponent locale =
    let whole = take (length digits - exponent) digits in
    let fraction = if exponent == 0 then [] else drop (length digits - exponent) digits in
    do
      n ← or_throw syntax_error (big_int whole)
      let grouped = format_integer locale n
      ok (
          signed negative (
            if length fraction == 0
            then grouped
            else grouped ++ decimal_separator locale ∷ fraction))

unfoldable pub format_minor_units : Text → ℕ → Locale → Result Text
unfolding format_digits pad_start starts_with
format_minor_units minor_units exponent locale =
    let negative = starts_with minor_units (codes "-") in
    format_digits negative (pad_start (exponent + 1) b'0' (unsigned negative minor_units)) exponent
      locale

unfoldable pub format_money : Money → Locale → Result Text
unfolding exponent_of format_minor_units
format_money money locale = do
  exponent ← or_throw (unknown_currency money.currency_code) (exponent_of money.currency_code)
  format_minor_units money.minor_units exponent locale

-- The reduction, from a sum so far.
unfoldable pub sum_from : ℤ → List Text → Result ℤ
unfolding big_int
sum_from acc [] = ok acc
sum_from acc (v ∷ values) = do n ← or_throw syntax_error (big_int v); sum_from (acc +ℤ n) values

unfoldable pub sum_minor_units : List Text → Result Text
unfolding sum_from int_text ◌+ℤ◌
sum_minor_units values = do total ← sum_from (pos 0) values; ok (int_text total)

abbrev is_zero : ℤ → Bool
is_zero (pos zero) = true
is_zero _ = false

abbrev tenths_text : ℤ → Locale → Text
tenths_text tenths locale =
    let negative = ltb_ℤ tenths (pos 0) in
    let abs = pad_start 2 b'0' (int_text (if negative then neg_ℤ tenths else tenths)) in
    signed negative (but_last 1 abs ++ decimal_separator locale ∷ at_last 1 abs ++ codes "%")

-- `ok none` is `undefined`.
unfoldable pub percent_of : Text → Text → Locale → Result (Option Text)
unfolding big_int int_text decimal_separator pad_start neg_ℤ quot_ℤ ◌*ℤ◌
percent_of amount base locale = do
  base_big ← or_throw syntax_error (big_int base)
  if is_zero base_big then ok none else (do
    n ← or_throw syntax_error (big_int amount)
    let tenths = quot_ℤ (n *ℤ pos 1000) base_big
    ok (some (tenths_text tenths locale)))
