-- ===== src/Money/Strip.antt =====
-- A displayed figure without the marks of its locale.
use vekst.Prelude.{
  Text, ℕ, zero, suc, ◌≡◌, refl, ap, ◌∙◌, sym, ◌||◌, ◌==◌, [], ◌∷◌, ◌++◌, Option, none, ℤ, pos,
  if◌then◌else◌, arith, Bool-cases, inl, inr,
}
use mathlib.Core.List.{reverse, reverse-cons, reverse-reverse, append-nil}
use mathlib.Core.Option
use vekst.Prelude.Int.{neg_ℕ}
use vekst.Prelude.Decimal.{digits_of}
use vekst.Prelude.Lemmas.{IsDigit, IsDigits, All-reverse}
use vekst.Locale.{Locale, en, ru}
use vekst.Money.{minus, decimal_separator, group_separator, group_from, group}

-- Without the marks of the locale.
unfoldable pub strip : Locale → Text → Text
strip locale [] = []
strip locale (c ∷ s) =
    if c == group_separator locale || c == decimal_separator locale
    then strip locale s
    else c ∷ strip locale s

-- The minor units that a figure shows.
unfoldable pub figure_value : Locale → Text → Option ℤ
figure_value locale [] = none
figure_value locale (c ∷ s) =
    if c == minus
    then Option.map neg_ℕ (digits_of 10 (strip locale s))
    else Option.map pos (digits_of 10 (strip locale (c ∷ s)))

pub strip-append :
    (locale : Locale) (s t : Text) → strip locale (s ++ t) ≡ strip locale s ++ strip locale t
unfolding strip
strip-append locale [] t = refl
strip-append locale (c ∷ s) t = ground (arith, strip-append locale s t)

strip-reverse : (locale : Locale) (s : Text) → strip locale (reverse s) ≡ reverse (strip locale s)
unfolding strip
strip-reverse locale [] = refl
strip-reverse locale (c ∷ s) =
    rw (reverse-cons c s, strip-append locale (reverse s) (c ∷ []), strip-reverse locale s)
      (elim (Bool-cases (c == group_separator locale || c == decimal_separator locale)) [
        | inl e ↦ rw e (append-nil (reverse (strip locale s)))
        | inr e ↦ rw e (sym (reverse-cons c (strip locale s)))
      ])

pub strip_digits : (locale : Locale) (s : Text) → IsDigits s → strip locale s ≡ s
unfolding strip decimal_separator group_separator
strip_digits locale [] h = refl
strip_digits en (c ∷ s) h = ground (arith, strip_digits en s)
strip_digits ru (c ∷ s) h = ground (arith, strip_digits ru s)

strip-group_from :
    (locale : Locale) (left : ℕ) (s : Text)
    → IsDigits s
    → strip locale (group_from (group_separator locale) left s) ≡ s
unfolding strip group_from decimal_separator group_separator
strip-group_from locale left [] h = refl
strip-group_from en zero (c ∷ s) h = ground (arith, strip-group_from en 2 s)
strip-group_from ru zero (c ∷ s) h = ground (arith, strip-group_from ru 2 s)
strip-group_from en (suc left) (c ∷ s) h = ground (arith, strip-group_from en left s)
strip-group_from ru (suc left) (c ∷ s) h = ground (arith, strip-group_from ru left s)

-- Grouping only adds marks.
pub strip-group :
    (locale : Locale) (s : Text) → IsDigits s → strip locale (group (group_separator locale) s) ≡ s
unfolding group
strip-group locale s h =
    strip-reverse locale (group_from (group_separator locale) 3 (reverse s))
    ∙ ap reverse (strip-group_from locale 3 (reverse s) (All-reverse IsDigit s h))
    ∙ reverse-reverse s
