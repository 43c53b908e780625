-- ===== src/Prelude/Last.antt =====
-- The last element of a list that has a key, which is the one that a map built of the list keeps.
use mathlib.Core.Path.{◌≡◌, refl, ap}
use mathlib.Core.Logic.{◌≢◌}
use mathlib.Core.Bool.{Bool, true, false}
use mathlib.Core.Option.{Option, none, some}
use mathlib.Core.List.{List, [], ◌∷◌, ◌++◌}
use vekst.Prelude.Tests.{if◌then◌else◌}
use vekst.Prelude.Strings.{Text, text_eq, text_eq_iff}
use vekst.Prelude.Lemmas.{All}

module _ {ℓ} {A : Type ℓ} (key : A → Text) (k : Text) where
  abbrev pub IsElsewhere : A → Type 0
  IsElsewhere x = key x ≢ k

  pub data Last (xs : List A) : Option A → Type ℓ where
    nowhere : All IsElsewhere xs → Last xs none
    there :
        (before : List A) (x : A) (after : List A)
        → xs ≡ before ++ x ∷ after
        → key x ≡ k
        → All IsElsewhere after
        → Last xs (some x)

  pub Last-cons :
      (x : A) (xs : List A) (o : Option A)
      → Last xs o
      → Last
          (x ∷ xs)
          (elim o [ some y ↦ some y | none ↦ if text_eq (key x) k then some x else none ])
  Last-cons x xs (some y) (there before z after e same h) =
      there (x ∷ before) z after (ap (λ ys. x ∷ ys) e) same h
  Last-cons x xs none (nowhere h) = go (text_eq (key x) k) refl
    where
      go : (b : Bool) → text_eq (key x) k ≡ b → Last (x ∷ xs) (if b then some x else none)
      go true e = there [] x xs refl ((text_eq_iff (key x) k).0 e) h
      go false e = nowhere ((λ same. absurd (cc (e, (text_eq_iff (key x) k).1 same))), h)
