-- ===== src/App/Charts/Numbers.antt =====
-- The floating point numbers that a chart is drawn with. The language's arithmetic is a parameter: only
-- figures in a table are texts of exact amounts, and nothing here is read back.
use vekst.Prelude.{ℕ, ◌≤◌, ◌≡◌, ℤ, pos, Bool, true, false, List, [], ◌∷◌, Option, none, some}
use vekst.Prelude.Int.{ltb_ℤ}
use vekst.Prelude.Decimal.{big_int}
use vekst.Prelude.Strings.{Text}
use vekst.Prelude.Result.{Result, ok, or_throw, syntax_error, ◌>>=◌}

pub record Numbers : Type 1 where
  pub Number : Type 0
  -- Number(units) / 10 ** exponent
  pub of_units : ℤ → ℕ → Number
  pub zero_number : Number
  pub add : Number → Number → Number
  pub sub : Number → Number → Number
  pub negate : Number → Number
  pub less : Number → Number → Bool

-- What the code relies on, of numbers that are not NaN: `less` is a strict order with ties, a positive
-- amount of at most four decimals is a positive number and no amount at all is zero; positive numbers
-- add up to a positive one, zero adds nothing, and the opposite of a negative one is positive.
pub record IsOrdered (n : Numbers) : Type 0 where
  pub less_asym : (a b : n.Number) → n.less a b ≡ true → n.less b a ≡ false
  pub less_trans : (a b c : n.Number) → n.less a b ≡ false → n.less b c ≡ false → n.less a c ≡ false
  pub of_units_pos :
      (z : ℤ) (e : ℕ)
      → e ≤ 4
      → ltb_ℤ (pos 0) z ≡ true
      → n.less n.zero_number (n.of_units z e) ≡ true
  pub of_units_zero : (e : ℕ) → n.of_units (pos 0) e ≡ n.zero_number
  pub add_pos :
      (a b : n.Number)
      → n.less n.zero_number a ≡ true
      → n.less n.zero_number b ≡ true
      → n.less n.zero_number (n.add a b) ≡ true
  pub add_zero : (a : n.Number) → n.add n.zero_number a ≡ a
  pub negate_pos :
      (a : n.Number) → n.less a n.zero_number ≡ true → n.less n.zero_number (n.negate a) ≡ true

module _ (n : Numbers) where
  -- Number(BigInt(minorUnits)) / 10 ** exp
  unfoldable pub major : Text → ℕ → Result (n.Number)
  unfolding big_int
  major minor_units exponent = do
    z ← or_throw syntax_error (big_int minor_units)
    ok (n.of_units z exponent)

  -- exp === undefined ? 0 : …
  abbrev pub major_or_zero : Option ℕ → Text → Result (n.Number)
  major_or_zero none minor_units = ok n.zero_number
  major_or_zero (some e) minor_units = major minor_units e

  -- `!== 0`
  abbrev pub not_zero : n.Number → Bool
  not_zero a = elim (n.less a n.zero_number) [ true ↦ true | false ↦ n.less n.zero_number a ]

  -- Math.abs
  abbrev pub absolute : n.Number → n.Number
  absolute a = elim (n.less a n.zero_number) [ true ↦ n.negate a | false ↦ a ]

  -- reduce((sum, s) => sum + s, 0), from a sum so far
  abbrev pub sum_from : n.Number → List n.Number → n.Number
  sum_from acc [] = acc
  sum_from acc (a ∷ rest) = sum_from (n.add acc a) rest
