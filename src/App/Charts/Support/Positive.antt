-- ===== src/App/Charts/Support/Positive.antt =====
-- A predicate of every slice is one of the slices that folding keeps, and what is positive in each
-- is positive in the folded one.
use vekst.Prelude.{
  ℕ, zero, suc, ◌≡◌, inl, inr, List, [], ◌∷◌, map, Option, none, some, Bool-cases, true, false,
  arith, leb, length, take, drop,
}
use vekst.Prelude.Strings.{Text}
use vekst.Prelude.Lemmas.{All}
use vekst.App.Charts.Numbers.{Numbers, IsOrdered, sum_from}
use vekst.App.Charts.Support.{Sliced, Folded, place, sort, fold_top_n}

module _ {ℓ κ} (n : Numbers) {A : Type ℓ} (key : A → n.Number) (P : A → Type κ) where
  place-All : (x : A) (ys : List A) → P x → All P ys → All P (place n key x ys)
  unfolding place
  place-All x [] h k = (h, tt)
  place-All x (y ∷ ys) h k = elim (Bool-cases (n.less (key x) (key y))) [
    | inl e ↦ rw e (k.0, place-All x ys h k.1)
    | inr e ↦ rw e (h, k)
  ]

  pub sort-All : (xs : List A) → All P xs → All P (sort n key xs)
  unfolding sort
  sort-All [] h = tt
  sort-All (x ∷ xs) h = place-All x (sort n key xs) h.0 (sort-All xs h.1)

module _ {ℓ κ} {A : Type ℓ} (P : A → Type κ) where
  pub take-All : (k : ℕ) (xs : List A) → All P xs → All P (take k xs)
  take-All zero xs h = tt
  take-All (suc k) [] h = tt
  take-All (suc k) (x ∷ xs) h = (h.0, take-All k xs h.1)

  pub drop-All : (k : ℕ) (xs : List A) → All P xs → All P (drop k xs)
  drop-All zero xs h = h
  drop-All (suc k) [] h = tt
  drop-All (suc k) (x ∷ xs) h = drop-All k xs h.1

module _ (n : Numbers) where
  abbrev pub IsPositive : n.Number → Type 0
  IsPositive a = n.less n.zero_number a ≡ true

  module _ (o : IsOrdered n) where
    pub sum_from-IsPositive :
        (a : n.Number) (xs : List n.Number)
        → IsPositive a
        → All IsPositive xs
        → IsPositive (sum_from n a xs)
    sum_from-IsPositive a [] h k = h
    sum_from-IsPositive a (x ∷ xs) h k =
        sum_from-IsPositive (n.add a x) xs (o.add_pos a x h k.0) k.1

    -- Of at least one.
    pub sum-IsPositive :
        (x : n.Number) (xs : List n.Number)
        → All IsPositive (x ∷ xs)
        → IsPositive (sum_from n n.zero_number (x ∷ xs))
    sum-IsPositive x xs h =
        sum_from-IsPositive (n.add n.zero_number x) xs (rw (o.add_zero x) h.0) h.1

  module _ {ℓ} {A : Type ℓ} where
    abbrev pub IsPositiveSlice : Sliced n A → Type 0
    IsPositiveSlice s = IsPositive s.value

    pub slices-values :
        (xs : List (Sliced n A)) → All IsPositiveSlice xs → All IsPositive (map (λ s. s.value) xs)
    slices-values [] h = tt
    slices-values (x ∷ xs) h = (h.0, slices-values xs h.1)

    -- Every amount of a folded list.
    abbrev pub IsPositiveFold : Folded n A → Type 0
    IsPositiveFold f =
        All IsPositiveSlice f.kept
        × All (λ o. IsPositive o.value) (elim f.other [ none ↦ [] | some o ↦ o ∷ [] ])

    drop-IsPositive :
        IsOrdered n
        → (k : ℕ) (xs : List (Sliced n A)) → leb (length xs) k ≡ false
        → All IsPositiveSlice xs
        → IsPositive (sum_from n n.zero_number (map (λ s. s.value) (drop k xs)))
    drop-IsPositive o zero [] e h = ground (arith, e)
    drop-IsPositive o zero (x ∷ xs) e h =
        sum-IsPositive o x.value (map (λ s. s.value) xs) (slices-values (x ∷ xs) h)
    drop-IsPositive o (suc k) [] e h = ground (arith, e)
    drop-IsPositive o (suc k) (x ∷ xs) e h = drop-IsPositive o k xs (ground (arith, e)) h.1

    pub fold_top_n-IsPositive :
        IsOrdered n
        → (items : List (Sliced n A)) (limit : ℕ) (label : Option Text) → All IsPositiveSlice items
        → IsPositiveFold (fold_top_n n items limit label)
    unfolding fold_top_n
    fold_top_n-IsPositive o items limit label h =
        elim (Bool-cases (leb (length (sort n (λ s. s.value) items)) limit)) [
          | inl e ↦ rw e (sort-All n (λ s. s.value) IsPositiveSlice items h, tt)
          | inr e ↦ rw e (
            take-All IsPositiveSlice limit (sort n (λ s. s.value) items)
                (sort-All n (λ s. s.value) IsPositiveSlice items h),
            (
              drop-IsPositive o limit (sort n (λ s. s.value) items) e
                  (sort-All n (λ s. s.value) IsPositiveSlice items h),
              tt,
            ),
          )
        ]
