-- ===== src/App/Charts/Support/Entries.antt =====
-- The list that the charts draw of a folded list.
use vekst.Prelude.{
  ℕ, suc, ◌≤◌, List, [], ◌∷◌, map, Option, none, some, length, length-append, length-map, arith,
}
use vekst.Prelude.Strings.{Text}
use vekst.Prelude.Lemmas.{All, All-append}
use vekst.App.Charts.Numbers.{Numbers, IsOrdered}
use vekst.App.Charts.Support.{Sliced, Other, fold_top_n, entry, entries, folded_entries}
use vekst.App.Charts.Support.Laws.{fold_top_n_lem}
use vekst.App.Charts.Support.Positive.{
  IsPositive, IsPositiveSlice, IsPositiveFold, fold_top_n-IsPositive,
}

module _ (n : Numbers) where
  abbrev pub IsPositiveEntry : Other n → Type 0
  IsPositiveEntry e = IsPositive n e.value

  -- Positive amounts, and one more of them than the limit at most.
  abbrev pub IsBounded : ℕ → List (Other n) → Type 0
  IsBounded limit es = All IsPositiveEntry es × (length es ≤ suc limit)

module _ {ℓ} (n : Numbers) {A : Type ℓ} where
  map-entry-All :
      (xs : List (Sliced n A))
      → All (IsPositiveSlice n) xs
      → All (IsPositiveEntry n) (map (entry n) xs)
  map-entry-All [] h = tt
  map-entry-All (x ∷ xs) h = (h.0, map-entry-All xs h.1)

  entries-All :
      (kept : List (Sliced n A)) (other : Option (Other n))
      → IsPositiveFold n (record { kept = kept; other = other })
      → All (IsPositiveEntry n) (entries n kept other)
  entries-All kept none h = map-entry-All kept h.0
  entries-All kept (some o) h =
      All-append (IsPositiveEntry n) (map (entry n) kept) (o ∷ []) (map-entry-All kept h.0) h.1

  length-entries :
      (kept : List (Sliced n A)) (other : Option (Other n))
      → length (entries n kept other) ≤ suc (length kept)
  length-entries kept none = omega (arith, length-map kept (entry n))
  length-entries kept (some o) =
      omega (arith, length-append (map (entry n) kept) (o ∷ []), length-map kept (entry n))

  pub folded_entries-IsBounded :
      IsOrdered n
      → (limit : ℕ) (label : Option Text) (items : List (Sliced n A))
      → All (IsPositiveSlice n) items
      → IsBounded n limit (folded_entries n (fold_top_n n items limit label))
  folded_entries-IsBounded o limit label items h =
      let f = fold_top_n n items limit label in
      let (tail, p) = fold_top_n_lem n o items limit label in
      (
        entries-All f.kept f.other (fold_top_n-IsPositive n o items limit label h),
        omega (arith, length-entries f.kept f.other, p.1),
      )
