-- ===== src/Client/Laws.antt =====
-- How a chain of steps goes on from what its first step comes to.
use mathlib.Core.List.{append-nil, append_assoc}
use vekst.Prelude.{◌≡◌, refl, ap, sym, ◌∙◌, List, [], ◌∷◌, ◌++◌, ◌⊎◌, inl, inr}
use vekst.Prelude.Result.{Result, ok, err, Failure}
use vekst.Client.{Platform, State, Io, Call, call, continue, both, optional, caught, ◌>>=◌}

module _ {ℓ κ} {A : Type ℓ} {B : Type κ} (m : Io A) (f : A → Io B) (p : Platform) (s : State) where
  pub bind_ok : {a : A} {s' : State} → m p s ≡ (ok a, s') → (m >>= f) p s ≡ f a p s'
  bind_ok e = ap (λ r. continue r f p) e

  pub bind_err : {e : Failure} {s' : State} → m p s ≡ (err e, s') → (m >>= f) p s ≡ (err e, s')
  bind_err e = ap (λ r. continue r f p) e

pub Result-cases {ℓ} :
    {A : Type ℓ} (r : Result A) → ((a : A) × (r ≡ ok a)) ⊎ ((e : Failure) × (r ≡ err e))
Result-cases (ok a) = inl (a, refl)
Result-cases (err e) = inr (e, refl)

-- Calls are only ever added: what was made stays made, also when a step fails.
pub record Extends (s t : State) : Type 0 where
  pub more : List Call
  pub calls : t.calls ≡ s.calls ++ more

pub Extends-refl : (s : State) → Extends s s
Extends-refl s = record { more = []; calls = sym (append-nil s.calls) }

pub Extends-trans : {s t u : State} → Extends s t → Extends t u → Extends s u
Extends-trans {s} a b = record {
  more = a.more ++ b.more;
  calls = b.calls ∙ ap (λ cs. cs ++ b.more) a.calls ∙ append_assoc s.calls a.more b.more;
}

abbrev pub IsExtending {ℓ} : {A : Type ℓ} → Io A → Type 0
IsExtending m = (p : Platform) (s : State) → Extends s (m p s).1

pub call-IsExtending : (c : Call) → IsExtending (call c)
unfolding call
call-IsExtending c p s = record { more = c ∷ []; calls = refl }

module _ {ℓ κ} {A : Type ℓ} {B : Type κ} where
  pub bind-IsExtending :
      (m : Io A) (f : A → Io B)
      → IsExtending m
      → ((a : A) → IsExtending (f a))
      → IsExtending (m >>= f)
  bind-IsExtending m f h k p s = go (m p s) (h p s)
    where
      go : (r : Result A × State) → Extends s r.1 → Extends s (continue r f p).1
      go (ok a, s') e = Extends-trans e (k a p s')
      go (err e', s') e = e

  pub both-IsExtending :
      (m : Io A) (n : Io B) → IsExtending m → IsExtending n → IsExtending (both m n)
  both-IsExtending m n h k p s = Extends-trans (h p s) (k p (m p s).1)

pub optional-IsExtending {ℓ} : {A : Type ℓ} (m : Io A) → IsExtending m → IsExtending (optional m)
optional-IsExtending {A} m h p s = go (m p s) (h p s)
  where
    go : (r : Result A × State) → Extends s r.1 → Extends s (caught r).1
    go (ok a, s') e = e
    go (err e', s') e = e
