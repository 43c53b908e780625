-- ===== src/Prelude/Decimal.antt =====
-- BigInt: `BigInt(text)` and `toString()`.
use Prim.Native.Nat.{ℕ, zero, suc, ◌+◌, ◌-◌, ◌*◌, ◌/◌, ◌%◌}
use mathlib.Core.Bool.{◌&&◌}
use mathlib.Core.Option
use mathlib.Core.Option.{Option, none, some}
use mathlib.Core.List.{[], ◌∷◌, ◌++◌}
use vekst.Prelude.Tests.{ltb, leb, ◌==◌, if◌then◌else◌}
use vekst.Prelude.Int.{ℤ, pos, negsuc, neg_ℕ}
use vekst.Prelude.Strings.{Text, trim}

-- The value of a digit in a radix up to 16.
unfoldable pub digit : ℕ → ℕ → Option ℕ
digit radix c =
    let v =
      if leb b'0' c && leb c b'9'
      then c - b'0'
      else if leb b'a' c && leb c b'f'
      then c - b'a' + 10
      else if leb b'A' c && leb c b'F'
      then c - b'A' + 10
      else radix in
    if ltb v radix then some v else none

-- Digits behind the number that the digits before them spell.
unfoldable pub scan : ℕ → ℕ → Text → Option ℕ
unfolding digit
scan radix n [] = some n
scan radix n (c ∷ s) = elim (digit radix c) [ none ↦ none | some v ↦ scan radix (n * radix + v) s ]

unfoldable pub digits_of : ℕ → Text → Option ℕ
unfolding scan
digits_of radix [] = none
digits_of radix (c ∷ s) = scan radix 0 (c ∷ s)

abbrev lower_bit : ℕ → ℕ
lower_bit c = if leb b'A' c && leb c b'Z' then c + 32 else c

-- A sign belongs to a decimal literal only, a radix prefix to an unsigned one.
unfoldable pub int_literal : Text → Option ℤ
unfolding digits_of
int_literal [] = some (pos 0)
int_literal (c ∷ []) = Option.map pos (digits_of 10 (c ∷ []))
int_literal (c ∷ d ∷ s) =
    if c == b'-'
    then Option.map neg_ℕ (digits_of 10 (d ∷ s))
    else if c == b'+'
    then Option.map pos (digits_of 10 (d ∷ s))
    else if c == b'0' && lower_bit d == b'x'
    then Option.map pos (digits_of 16 s)
    else if c == b'0' && lower_bit d == b'o'
    then Option.map pos (digits_of 8 s)
    else if c == b'0' && lower_bit d == b'b'
    then Option.map pos (digits_of 2 s)
    else Option.map pos (digits_of 10 (c ∷ d ∷ s))

-- BigInt(text); `none` is its SyntaxError.
unfoldable pub big_int : Text → Option ℤ
unfolding int_literal trim
big_int s = int_literal (trim s)

-- The digits of a number below the fuel.
unfoldable pub digits_below : ℕ → ℕ → Text
digits_below zero n = []
digits_below (suc f) n =
    let front = digits_below f (n / 10) in
    if ltb n 10 then (b'0' + n) ∷ [] else front ++ (b'0' + n % 10) ∷ []

unfoldable pub nat_text : ℕ → Text
unfolding digits_below
nat_text n = digits_below (suc n) n

-- value.toString()
unfoldable pub int_text : ℤ → Text
unfolding nat_text
int_text (pos n) = nat_text n
int_text (negsuc n) = b'-' ∷ nat_text (suc n)
