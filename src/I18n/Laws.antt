-- ===== src/I18n/Laws.antt =====
-- The two catalogues of web/src/i18n.ts against one another.
use vekst.Prelude.{
  Text, codes, ℕ, ◌≡◌, ◌↔◌, refl, Bool, true, false, ◌&&◌, List, [], ◌∷◌, ◌++◌, none, some, arith,
  ap, ◌⊎◌, inl, inr, Option-cases,
}
use vekst.Prelude.Strings.{text_eq, text_eq_iff}
use vekst.Locale.{Locale, en, ru}
use vekst.I18n.{messages, find_message, t, auth_error_message}

keys_eq : List (Text × Text) → List (Text × Text) → Bool
keys_eq [] [] = true
keys_eq ((k, _) ∷ xs) ((j, _) ∷ ys) = text_eq k j && keys_eq xs ys
keys_eq _ _ = false

same_keys : keys_eq (messages en) (messages ru) ≡ true
unfolding keys_eq messages text_eq
same_keys = refl

find_message-keys_eq :
    (key : Text) (xs ys : List (Text × Text))
    → keys_eq xs ys ≡ true
    → (find_message key xs ≡ none) ↔ (find_message key ys ≡ none)
unfolding keys_eq find_message
find_message-keys_eq key [] [] h = ((λ e. e), (λ e. e))
find_message-keys_eq key [] (y ∷ ys) h = absurd (cc)
find_message-keys_eq key (x ∷ xs) [] h = absurd (cc)
find_message-keys_eq key ((k, v) ∷ xs) ((j, w) ∷ ys) h =
    let same = (text_eq_iff k j).0 (ground arith) in
    let (to, from) = find_message-keys_eq key xs ys (ground arith) in
    ((λ e. ground (arith, same, to)), (λ e. ground (arith, same, from)))

-- A key has a message in one locale exactly when it has one in the other.
pub t-locale : (key : Text) → (t key en ≡ none) ↔ (t key ru ≡ none)
unfolding t
t-locale key = find_message-keys_eq key (messages en) (messages ru) same_keys

unknown_known : (locale : Locale) → (s : Text) × (t (codes "error.unknown") locale ≡ some s)
unfolding t text_eq
unknown_known en = (codes "Sign-in failed. Please try again.", refl)
unknown_known ru = (codes "Не удалось войти. Попробуйте ещё раз.", refl)

known_everywhere :
    (key : Text) (locale : Locale) {s : Text}
    → t key en ≡ some s
    → (v : Text) × (t key locale ≡ some v)
known_everywhere key en {s} h = (s, h)
known_everywhere key ru h = elim (Option-cases (t key ru)) [
  | inl e ↦ absurd (cc ((t-locale key).1 e))
  | inr found ↦ found
]

missing_everywhere : (key : Text) (locale : Locale) → t key en ≡ none → t key locale ≡ none
missing_everywhere key en h = h
missing_everywhere key ru h = (t-locale key).0 h

-- Every code gets a sentence in the reader's language: the code's own where the catalogue has one,
-- and otherwise the one for an unknown code. Nothing is shown exactly for no code and an empty one.
pub auth_error_message_total :
    (c : ℕ) (code : Text) (locale : Locale)
    → (s : Text) × (auth_error_message (some (c ∷ code)) locale ≡ some (some s))
      × ((t (codes "error." ++ c ∷ code) locale ≡ some s)
          ⊎ ((t (codes "error." ++ c ∷ code) locale ≡ none)
              × (t (codes "error.unknown") locale ≡ some s)))
unfolding auth_error_message
auth_error_message_total c code locale = elim (Option-cases (t (codes "error." ++ c ∷ code) en)) [
  | inl missing ↦
      let (s, e) = unknown_known locale in
      (s, rw missing (ap some e), inr (missing_everywhere _ locale missing, e))
  | inr (v, found) ↦
      let (s, e) = known_everywhere _ locale found in (s, rw found (ap some e), inl e)
]
