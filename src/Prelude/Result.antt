-- ===== src/Prelude/Result.antt =====
-- What the client throws, as values.
use mathlib.Core.Option.{Option, none, some}
use mathlib.Core.List.{List, [], ◌∷◌}
use Prim.Native.Nat.{ℕ}
use vekst.Prelude.Strings.{Text}

pub data Failure : Type 0 where
  -- BigInt of a text that is no integer
  syntax_error : Failure
  unknown_currency : Text → Failure
  -- a property read of `undefined`
  type_error : Failure
  mixed_basis session_not_set batch_vanished : Failure
  -- a response without the message that the caller needs
  missing_message : Text → Failure
  upload_failed : ℕ → Failure
  -- a rejected call: the raw message of the transport's error
  rejected : Text → Failure
  -- a coded failure, decoded for a screen
  resolve_group create_organisation : Text → Failure

pub data Result {ℓ} (A : Type ℓ) : Type ℓ where
  ok : A → Result A
  err : Failure → Result A

infixl 5 ◌>>=◌
abbrev pub ◌>>=◌ {ℓ κ} : {A : Type ℓ} {B : Type κ} → Result A → (A → Result B) → Result B
ok a >>= f = f a
err e >>= f = err e

abbrev pub or_throw {ℓ} : {A : Type ℓ} → Failure → Option A → Result A
or_throw e none = err e
or_throw e (some a) = ok a

-- xs.map(f), where f may throw
unfoldable pub map_result {ℓ κ} :
    {A : Type ℓ} {B : Type κ} → (A → Result B) → List A → Result (List B)
map_result f [] = ok []
map_result f (x ∷ xs) = do y ← f x; ys ← map_result f xs; ok (y ∷ ys)
