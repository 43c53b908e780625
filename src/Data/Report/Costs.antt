-- ===== src/Data/Report/Costs.antt =====
-- The costs of the months of a report against the integers of its lines.
use vekst.Prelude.{
  Text, ℕ, suc, ◌+◌, ◌<◌, ℤ, ◌≡◌, refl, ◌⊎◌, inl, inr, List, [], ◌∷◌, Option, none, some,
  Option-cases, length, arith,
}
use vekst.Prelude.Int.{◌-ℤ◌}
use vekst.Prelude.Decimal.{big_int, int_text}
use vekst.Prelude.Lemmas.{big_int-int_text}
use vekst.Prelude.Result.{ok, err, syntax_error}
use vekst.Money.{Money}
use vekst.Data.Report.{ReportLine, sub_minor_units, value_at, expenses_from}

-- The difference of two texts, or the first of them that is no integer.
pub data Difference (a b : Text) : Type 0 where
  exact :
      (x y : ℤ)
      → big_int a ≡ some x
      → big_int b ≡ some y
      → sub_minor_units a b ≡ ok (int_text (x -ℤ y))
      → Difference a b
  refused :
      (big_int a ≡ none) ⊎ (big_int b ≡ none)
      → sub_minor_units a b ≡ err syntax_error
      → Difference a b

sub_minor_units-Difference : (a b : Text) → Difference a b
unfolding sub_minor_units
sub_minor_units-Difference a b = elim (Option-cases (big_int a)) [
  | inl e ↦ refused (inl e) (rw e refl)
  | inr (x, e) ↦ elim (Option-cases (big_int b)) [
    | inl k ↦ refused (inr k) (rw e (rw k refl))
    | inr (y, k) ↦ exact x y e k (rw e (rw k refl))
  ]
]

module _ (revenue cm : Option ReportLine) where
  -- One cost for each period, from the period numbered `i` on: revenue less contribution margin.
  pub data Costs : ℕ → List Text → List Money → Type 0 where
    none_left : {i : ℕ} → Costs i [] []
    cost :
        {i : ℕ} {p : Text} {ps : List Text} {m : Money} {ms : List Money} (x y : ℤ)
        → big_int (value_at revenue i).minor_units ≡ some x
        → big_int (value_at cm i).minor_units ≡ some y
        → big_int m.minor_units ≡ some (x -ℤ y)
        → Costs (suc i) ps ms
        → Costs i (p ∷ ps) (m ∷ ms)

  -- A value that is no integer.
  abbrev pub IsBad : ℕ → Type 0
  IsBad j =
      (big_int (value_at revenue j).minor_units ≡ none)
      ⊎ (big_int (value_at cm j).minor_units ≡ none)

  -- The costs by period are computed exactly: either there is one for each period in its order, the text of
  -- revenue less contribution margin, where a missing line or value counts as zero; or the text of one
  -- of those values, for one of the periods, is no integer, and the whole is refused.
  pub expenses_from-Costs :
      (currency : Text) (i : ℕ) (periods : List Text)
      → ((ms : List Money) × (expenses_from revenue cm currency i periods ≡ ok ms)
          × Costs i periods ms)
        ⊎ ((j : ℕ) × (j < i + length periods)
            × IsBad j
            × (expenses_from revenue cm currency i periods ≡ err syntax_error))
  unfolding expenses_from
  expenses_from-Costs currency i [] = inl ([], refl, none_left)
  expenses_from-Costs currency i (p ∷ ps) =
      elim (sub_minor_units-Difference (value_at revenue i).minor_units
        (value_at cm i).minor_units) [
          | refused bad e ↦ inr (i, omega arith, bad, rw e refl)
          | exact x y ex ey e ↦ elim (expenses_from-Costs currency (suc i) ps) [
            | inl (ms, h, costs) ↦ inl (
              record { minor_units = int_text (x -ℤ y); currency_code = currency } ∷ ms,
              rw e (rw h refl),
              cost x y ex ey (big_int-int_text (x -ℤ y)) costs,
            )
            | inr (j, less, bad, h) ↦ inr (j, omega arith, bad, rw e (rw h refl))
          ]
        ]
