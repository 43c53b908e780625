-- ===== src/App/Charts/Support/Laws.antt =====
-- What folding a list keeps, what it folds, and in which order.
use mathlib.Core.List.{Perm, append-nil}
use mathlib.Core.List.Perm
use vekst.Prelude.{
  ℕ, zero, suc, ◌≤◌, ◌≡◌, refl, sym, inl, inr, List, [], ◌∷◌, ◌++◌, map, Option, none, some, false,
  leb, length, take, drop, take-append-drop, length-take, arith, Bool-cases, leb→le,
}
use vekst.Prelude.Strings.{Text}
use vekst.Prelude.Lemmas.{All}
use vekst.App.Charts.Numbers.{Numbers, IsOrdered, sum_from}
use vekst.App.Charts.Support.{Sliced, Other, Folded, place, sort, fold_top_n}

module _ {ℓ} (n : Numbers) {A : Type ℓ} (key : A → n.Number) where
  -- No one of the list is larger.
  abbrev pub IsLargest : A → List A → Type 0
  IsLargest x ys = All (λ y. n.less (key x) (key y) ≡ false) ys

  abbrev pub IsDescending : List A → Type 0
  IsDescending [] = Unit
  IsDescending (x ∷ xs) = IsLargest x xs × IsDescending xs

  place-perm : (x : A) (ys : List A) → Perm (place n key x ys) (x ∷ ys)
  unfolding place
  place-perm x [] = Perm.refl (x ∷ [])
  place-perm x (y ∷ ys) = elim (Bool-cases (n.less (key x) (key y))) [
    | inl e ↦ rw e (Perm.trans (Perm.cons y (place-perm x ys)) (Perm.swap x y ys))
    | inr e ↦ rw e (Perm.refl (x ∷ y ∷ ys))
  ]

  pub sort-perm : (xs : List A) → Perm (sort n key xs) xs
  unfolding sort
  sort-perm [] = Perm.refl []
  sort-perm (x ∷ xs) = Perm.trans (place-perm x (sort n key xs)) (Perm.cons x (sort-perm xs))

  module _ (o : IsOrdered n) where
    IsLargest-trans :
        (x y : A) (zs : List A) → n.less (key x) (key y) ≡ false → IsLargest y zs → IsLargest x zs
    IsLargest-trans x y [] e h = tt
    IsLargest-trans x y (z ∷ zs) e h =
        (o.less_trans (key x) (key y) (key z) e h.0, IsLargest-trans x y zs e h.1)

    place-IsLargest :
        (z x : A) (ys : List A)
        → n.less (key z) (key x) ≡ false
        → IsLargest z ys
        → IsLargest z (place n key x ys)
    unfolding place
    place-IsLargest z x [] e h = (e, tt)
    place-IsLargest z x (y ∷ ys) e h = elim (Bool-cases (n.less (key x) (key y))) [
      | inl lt ↦ rw lt (h.0, place-IsLargest z x ys e h.1)
      | inr ge ↦ rw ge (e, h)
    ]

    place-IsDescending : (x : A) (ys : List A) → IsDescending ys → IsDescending (place n key x ys)
    unfolding place
    place-IsDescending x [] h = (tt, tt)
    place-IsDescending x (y ∷ ys) h = elim (Bool-cases (n.less (key x) (key y))) [
      | inl lt ↦
          rw lt (
            place-IsLargest y x ys (o.less_asym (key x) (key y) lt) h.0,
            place-IsDescending x ys h.1,
          )
      | inr ge ↦ rw ge ((ge, IsLargest-trans x y ys ge h.0), h)
    ]

    pub sort-IsDescending : (xs : List A) → IsDescending (sort n key xs)
    unfolding sort
    sort-IsDescending [] = tt
    sort-IsDescending (x ∷ xs) = place-IsDescending x (sort n key xs) (sort-IsDescending xs)

  IsLargest-take : (x : A) (k : ℕ) (xs : List A) → IsLargest x xs → IsLargest x (take k xs)
  IsLargest-take x zero xs h = tt
  IsLargest-take x (suc k) [] h = tt
  IsLargest-take x (suc k) (y ∷ ys) h = (h.0, IsLargest-take x k ys h.1)

  IsLargest-drop : (x : A) (k : ℕ) (xs : List A) → IsLargest x xs → IsLargest x (drop k xs)
  IsLargest-drop x zero xs h = h
  IsLargest-drop x (suc k) [] h = tt
  IsLargest-drop x (suc k) (y ∷ ys) h = IsLargest-drop x k ys h.1

  pub take-IsDescending : (k : ℕ) (xs : List A) → IsDescending xs → IsDescending (take k xs)
  take-IsDescending zero xs h = tt
  take-IsDescending (suc k) [] h = tt
  take-IsDescending (suc k) (x ∷ xs) h = (IsLargest-take x k xs h.0, take-IsDescending k xs h.1)

  -- Each one that is taken is as large as what is dropped.
  take-IsLargest-drop :
      (k : ℕ) (xs : List A) → IsDescending xs → All (λ x. IsLargest x (drop k xs)) (take k xs)
  take-IsLargest-drop zero xs h = tt
  take-IsLargest-drop (suc k) [] h = tt
  take-IsLargest-drop (suc k) (x ∷ xs) h = (IsLargest-drop x k xs h.0, take-IsLargest-drop k xs h.1)

module _ {ℓ} (n : Numbers) {A : Type ℓ} where
  abbrev by_value : Sliced n A → n.Number
  by_value s = s.value

  -- What stands for a folded tail.
  abbrev pub folded_tail : Option Text → List (Sliced n A) → Option (Other n)
  folded_tail label [] = none
  folded_tail label (x ∷ xs) =
      some
        (record { label = label; value = sum_from n n.zero_number (map (λ s. s.value) (x ∷ xs)) })

  folded_tail-drop :
      (label : Option Text) (k : ℕ) (xs : List (Sliced n A))
      → leb (length xs) k ≡ false
      → folded_tail label (drop k xs)
        ≡ some (record {
          label = label;
          value = sum_from n n.zero_number (map (λ s. s.value) (drop k xs));
        })
  folded_tail-drop label zero [] e = ground arith
  folded_tail-drop label zero (x ∷ xs) e = refl
  folded_tail-drop label (suc k) [] e = ground arith
  folded_tail-drop label (suc k) (x ∷ xs) e = folded_tail-drop label k xs (ground (arith, e))

  All-IsLargest-none : (xs : List (Sliced n A)) → All (λ x. IsLargest n by_value x []) xs
  All-IsLargest-none [] = tt
  All-IsLargest-none (x ∷ xs) = (tt, All-IsLargest-none xs)

  -- `kept` and `tail` are a partition of `items`, and `other` stands for the tail.
  abbrev pub IsFoldOf :
      Folded n A → List (Sliced n A) → ℕ → Option Text → List (Sliced n A) → Type ℓ
  IsFoldOf folded items limit label tail =
      Perm (folded.kept ++ tail) items
      × (length folded.kept ≤ limit)
      × IsDescending n by_value folded.kept
      × All (λ x. IsLargest n by_value x tail) folded.kept
      × (folded.other ≡ folded_tail label tail)

  -- Folding keeps at most `limit` of the items, the largest first, each as large as everything that is
  -- folded; what it keeps and what it folds are the items themselves, in some order; and there
  -- is an `other`, with the sum of what is folded and the label, exactly if something is folded.
  pub fold_top_n_lem :
      IsOrdered n
      → (items : List (Sliced n A)) (limit : ℕ) (label : Option Text)
      → (tail : List (Sliced n A)) × IsFoldOf
          (fold_top_n n items limit label)
          items
          limit
          label
          tail
  unfolding fold_top_n
  fold_top_n_lem o items limit label =
      let xs = sort n by_value items in
      elim (Bool-cases (leb (length (sort n by_value items)) limit)) [
        | inl e ↦ rw e (
          [],
          (
            rw (append-nil xs) (sort-perm n by_value items),
            leb→le (length xs) limit e,
            sort-IsDescending n by_value o items,
            All-IsLargest-none xs,
            refl,
          ),
        )
        | inr e ↦ rw e (
          drop limit xs,
          (
            rw (take-append-drop limit xs) (sort-perm n by_value items),
            omega (arith, length-take limit xs),
            take-IsDescending n by_value limit xs (sort-IsDescending n by_value o items),
            take-IsLargest-drop n by_value limit xs (sort-IsDescending n by_value o items),
            sym (folded_tail-drop label limit xs e),
          ),
        )
      ]
