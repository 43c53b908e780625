-- ===== src/Prelude/Returns.antt =====
-- Total correctness of what may throw: it returns, and what it returns satisfies a predicate.
use mathlib.Core.Path.{◌≡◌, refl}
use mathlib.Core.List.{List, [], ◌∷◌}
use vekst.Prelude.Lemmas.{All}
use vekst.Prelude.Result.{Result, ok, err, map_result, ◌>>=◌}

-- It returns, and what it returns is a `P`.
abbrev pub Returns {ℓ} : {A : Type ℓ} → (A → Type 0) → Result A → Type 0
Returns P (ok a) = P a
Returns P (err e) = ⊥

module _ {ℓ} {A : Type ℓ} (P : A → Type 0) where
  pub Returns-bind {ι} :
      {B : Type ι} (Q : B → Type 0) (r : Result A) (f : A → Result B)
      → Returns P r
      → ((a : A) → P a → Returns Q (f a))
      → Returns Q (r >>= f)
  Returns-bind Q (ok a) f h k = k a h
  Returns-bind Q (err e) f h k = elim h [ ]

  -- The value and the equation.
  pub Returns-ok : (r : Result A) → Returns P r → (a : A) × (r ≡ ok a) × P a
  Returns-ok (ok a) h = (a, refl, h)
  Returns-ok (err e) h = elim h [ ]

module _ {ℓ} {A : Type ℓ} (P : A → Type 0) where
  -- Over a list whose members the function maps to a `P` each.
  pub Returns-map_result {ι} :
      {B : Type ι} (R : B → Type 0) (f : B → Result A)
      → ((b : B) → R b → Returns P (f b))
      → (bs : List B) → All R bs
      → Returns (All P) (map_result f bs)
  unfolding map_result
  Returns-map_result R f k [] h = tt
  Returns-map_result R f k (b ∷ bs) h = Returns-bind P (All P) (f b) _ (k b h.0) (λ a p.
      Returns-bind (All P) (All P) (map_result f bs) _ (Returns-map_result R f k bs h.1)
        (λ rest q. (p, q)))

-- Two lists of one length whose members are related in their order.
module _ {ℓ κ} {A : Type ℓ} {B : Type κ} (R : A → B → Type 0) where
  abbrev pub Zipped : List A → List B → Type 0
  Zipped [] [] = Unit
  Zipped (a ∷ xs) (b ∷ ys) = R a b × Zipped xs ys
  Zipped _ _ = ⊥

  -- A function that returns a related member for each.
  pub Returns-Zipped :
      (S : A → Type 0) (f : A → Result B)
      → ((a : A) → S a → Returns (R a) (f a))
      → (xs : List A) → All S xs
      → Returns (Zipped xs) (map_result f xs)
  unfolding map_result
  Returns-Zipped S f k [] h = tt
  Returns-Zipped S f k (x ∷ xs) h = Returns-bind (R x) (Zipped (x ∷ xs)) (f x) _ (k x h.0) (λ b r.
      Returns-bind (Zipped xs) (Zipped (x ∷ xs)) (map_result f xs) _ (Returns-Zipped S f k xs h.1)
        (λ bs q. (r, q)))
