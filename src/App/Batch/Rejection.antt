-- ===== src/App/Batch/Rejection.antt =====
-- The reason of a rejected batch, which is a code of core's, and the messages that there are for it.
use vekst.Prelude.{
  codes, ℕ, ◌≡◌, ◌≢◌, ◌↔◌, refl, ap, sym, ◌∙◌, inl, inr, List, [], ◌∷◌, ◌++◌, Option, none, some,
  Bool, true, false, not, ◌&&◌, ◌||◌, if◌then◌else◌, Option-cases, drop, arith,
}
use vekst.Prelude.Strings.{Text, text_eq, text_eq_iff, starts_with, starts_with-append}
use vekst.Locale.{Locale, en, ru}
use vekst.I18n.{t, find_message, messages}
use vekst.App.Batch.{rejection}

abbrev prefix : Text
prefix = codes "batch.rejected."

abbrev known : Text
known = codes "balance_mismatch"

-- Every key with the prefix `p` is `q`.
only : Text → Text → List (Text × Text) → Bool
only p q [] = true
only p q ((k, v) ∷ rest) = (not (starts_with k p) || text_eq k q) && only p q rest

only_check : (locale : Locale) → only prefix (prefix ++ known) (messages locale) ≡ true
unfolding only messages starts_with text_eq
only_check en = refl
only_check ru = refl

eq_of_only :
    (p q s k : Text)
    → (not (starts_with k p) || text_eq k q) ≡ true
    → text_eq k (p ++ s) ≡ true
    → p ++ s ≡ q
eq_of_only p q s k h e =
    let same = (text_eq_iff k (p ++ s)).0 e in
    let begins : starts_with k p ≡ true = rw same (starts_with-append p s) in
    sym same ∙ (text_eq_iff k q).0 (ground (arith, h, begins))

both_true : (a b : Bool) → a && b ≡ true → (a ≡ true) × (b ≡ true)
both_true true b h = (refl, h)
both_true false b h = absurd (cc h)

find_only :
    (p q s : Text) (ms : List (Text × Text)) {v : Text}
    → only p q ms ≡ true
    → find_message (p ++ s) ms ≡ some v
    → p ++ s ≡ q
unfolding only find_message
find_only p q s [] h e = absurd (cc e)
find_only p q s ((k, w) ∷ rest) {v} h e =
    let (first, later) = both_true _ _ h in
    go first (text_eq k (p ++ s)) refl (find_only p q s rest later) e
  where
    go :
        (not (starts_with k p) || text_eq k q) ≡ true
        → (b : Bool) → text_eq k (p ++ s) ≡ b
        → (find_message (p ++ s) rest ≡ some v → p ++ s ≡ q)
        → (if b then some w else find_message (p ++ s) rest) ≡ some v
        → p ++ s ≡ q
    go first true y f x = eq_of_only p q s k first y
    go first false y f x = f x

known_message : (locale : Locale) → (m : Text) × (t (prefix ++ known) locale ≡ some m)
unfolding t messages find_message text_eq
known_message en = (_, refl)
known_message ru = (_, refl)

unexplained : (o : Option Text) (m : Text) → o ≡ some m → some o ≢ some none
unexplained o m e h = absurd (cc (e, h))

-- A reason of a rejected batch is explained exactly if it is `balance_mismatch`; for every other code that
-- core has given, in both locales, the sentence is undefined and the box is empty.
pub rejection-none_iff :
    (c : ℕ) (reason : Text) (locale : Locale)
    → (rejection (some (c ∷ reason)) locale ≡ some none) ↔ (c ∷ reason ≢ known)
unfolding rejection t
rejection-none_iff c reason locale = (
  (λ h same.
      let (m, e) = known_message locale in
      unexplained (t (prefix ++ known) locale) m e
        (ap (λ r. some (t (prefix ++ r) locale)) (sym same) ∙ h)),
  (λ other. elim (Option-cases (find_message (prefix ++ c ∷ reason) (messages locale))) [
    | inl e ↦ ap some e
    | inr (m, e) ↦ absurd (
        other (
          ap (drop 15) (
            find_only prefix (prefix ++ known) (c ∷ reason) (messages locale) (only_check locale)
              e)))
  ]),
)
