-- ===== src/Money/Sums.antt =====
-- Totals of minor units against the integers that their texts stand for.
use vekst.Prelude.{
  Text, ℤ, pos, ◌≡◌, refl, ap, ◌∙◌, List, [], ◌∷◌, none, some, ◌⊎◌, inl, inr, Option-cases,
}
use vekst.Prelude.Int.{◌+ℤ◌, +ℤ_assoc, zero-+ℤ, int_laws}
use vekst.Prelude.Decimal.{big_int, int_text}
use vekst.Prelude.Lemmas.{big_int-int_text}
use vekst.Prelude.Result.{ok, err, syntax_error}
use vekst.Money.{sum_from, sum_minor_units}

abbrev pub total : List ℤ → ℤ
total [] = pos 0
total (v ∷ vs) = v +ℤ total vs

-- The texts are the integers, in order.
pub data Reads : List Text → List ℤ → Type 0 where
  none_left : Reads [] []
  read :
      {t : Text} {ts : List Text} {v : ℤ} {vs : List ℤ}
      → big_int t ≡ some v
      → Reads ts vs
      → Reads (t ∷ ts) (v ∷ vs)

-- Some text is not an integer.
pub data Unreadable : List Text → Type 0 where
  here : {t : Text} {ts : List Text} → big_int t ≡ none → Unreadable (t ∷ ts)
  there : {t : Text} {ts : List Text} → Unreadable ts → Unreadable (t ∷ ts)

sum_from_lem :
    (acc : ℤ) (ts : List Text)
    → ((vs : List ℤ) × Reads ts vs × (sum_from acc ts ≡ ok (acc +ℤ total vs)))
      ⊎ (Unreadable ts × (sum_from acc ts ≡ err syntax_error))
unfolding sum_from
sum_from_lem acc [] = inl ([], none_left, ap (λ z. ok z) (omega int_laws))
sum_from_lem acc (t ∷ ts) = elim (Option-cases (big_int t)) [
  | inl e ↦ inr (here e, rw e refl)
  | inr (v, e) ↦ elim (sum_from_lem (acc +ℤ v) ts) [
    | inl (vs, r, h) ↦ inl (v ∷ vs, read e r, rw e (h ∙ ap (λ z. ok z) (+ℤ_assoc acc v (total vs))))
    | inr (bad, h) ↦ inr (there bad, rw e h)
  ]
]

-- Of any list of texts, either every one is an integer, and the sum is a text that reads back as
-- their exact total, with no rounding or wrap-around; or some text is not, and the sum is refused.
pub sum_minor_units-IsTotal :
    (ts : List Text)
    → ((vs : List ℤ) × (s : Text) × Reads ts vs
        × (sum_minor_units ts ≡ ok s)
        × (big_int s ≡ some (total vs)))
      ⊎ (Unreadable ts × (sum_minor_units ts ≡ err syntax_error))
unfolding sum_minor_units
sum_minor_units-IsTotal ts = elim (sum_from_lem (pos 0) ts) [
  | inl (vs, r, h) ↦ inl (
    vs,
    int_text (total vs),
    r,
    rw h (ap (λ z. ok (int_text z)) (zero-+ℤ (total vs))),
    big_int-int_text (total vs),
  )
  | inr (bad, h) ↦ inr (bad, rw h refl)
]
