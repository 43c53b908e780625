-- ===== src/App/FirstRun/Laws.antt =====
-- What the form ever sends.
use vekst.Prelude.{
  codes, ℕ, ◌+◌, ◌≡◌, refl, ◌⊎◌, inl, inr, List, [], ◌∷◌, Bool, true, false, ◌||◌, length,
  length-append, arith, Bool-cases,
}
use vekst.Prelude.Strings.{Text, text_eq}
use vekst.Prelude.Lemmas.{All, All-append}
use vekst.Prelude.Result.{Result, ok, err}
use vekst.Wire.Review.{CreateOrganizationRequest}
use vekst.Data.Review.{CreatedOrganisation}
use vekst.App.FirstRun.{
  Market, Form, markets, find_market, choose_market, is_blank, submitted, on_submit, settle,
  Reached, start, type_name, type_entity, choose, submit, answer,
}

-- One of the three pairs that core accepts.
abbrev pub IsPair : Text → Text → Type 0
IsPair country currency =
    ((country ≡ codes "BY") × (currency ≡ codes "BYN"))
    ⊎ ((country ≡ codes "KZ") × (currency ≡ codes "KZT"))
    ⊎ ((country ≡ codes "PL") × (currency ≡ codes "PLN"))

abbrev pub IsAccepted : CreateOrganizationRequest → Type 0
IsAccepted r =
    IsPair r.country r.base_currency × (is_blank r.name ≡ false) × (is_blank r.entity_name ≡ false)

abbrev pub in_flight : Bool → ℕ
in_flight true = 1
in_flight false = 0

abbrev IsSound : Form → Type 0
IsSound f =
    IsPair f.market.country f.market.base_currency
    × All IsAccepted f.sent
    × (length f.sent ≡ f.answered + in_flight f.is_pending)

find_market-IsPair :
    (v : Text) (ms : List Market) (m : Market)
    → All (λ x. IsPair x.country x.base_currency) ms
    → IsPair m.country m.base_currency
    → IsPair (find_market v ms m).country (find_market v ms m).base_currency
find_market-IsPair v [] m h k = k
find_market-IsPair v (x ∷ ms) m h k = elim (Bool-cases (text_eq x.country v)) [
  | inl e ↦ rw e h.0
  | inr e ↦ rw e (find_market-IsPair v ms m h.1 k)
]

markets-IsPair : All (λ x. IsPair x.country x.base_currency) markets
markets-IsPair = (inl (refl, refl), (inr (inl (refl, refl)), (inr (inr (refl, refl)), tt)))

choose-IsSound : (v : Text) (f : Form) → IsSound f → IsSound (choose_market v f)
unfolding choose_market
choose-IsSound v f h = (find_market-IsPair v markets f.market markets-IsPair h.0, h.1, h.2)

on_submit-IsSound : (f : Form) → IsSound f → IsSound (on_submit f)
unfolding on_submit
on_submit-IsSound f h = go (is_blank f.name) (is_blank f.entity_name) f.is_pending refl refl refl
  where
    go :
        (a b c : Bool)
        → is_blank f.name ≡ a
        → is_blank f.entity_name ≡ b
        → f.is_pending ≡ c
        → IsSound (submitted ((a || b) || c) f)
    go true b c p q r = h
    go false true c p q r = h
    go false false true p q r = h
    go false false false p q r = (
      h.0,
      All-append IsAccepted f.sent _ h.1 ((h.0, p, q), tt),
      omega (arith, length-append f.sent (_ ∷ []), rw r at h.2),
    )

settle-IsSound :
    (r : Result CreatedOrganisation) (f : Form)
    → f.is_pending ≡ true
    → IsSound f
    → IsSound (settle r f)
unfolding settle
settle-IsSound (ok o) f e h = (h.0, h.1, omega (arith, rw e at h.2))
settle-IsSound (err x) f e h = (h.0, h.1, omega (arith, rw e at h.2))

Reached-IsSound : {f : Form} → Reached f → IsSound f
Reached-IsSound start = (inl (refl, refl), tt, refl)
Reached-IsSound (type_name v h) = Reached-IsSound h
Reached-IsSound (type_entity v h) = Reached-IsSound h
Reached-IsSound (choose {f} v h) = let (a, b, c) = Reached-IsSound h in choose-IsSound v f (a, b, c)
Reached-IsSound (submit {f} h) = on_submit-IsSound f (Reached-IsSound h)
Reached-IsSound (answer {f} r e h) = settle-IsSound r f e (Reached-IsSound h)

-- However the form is used, each request that it ever sent names a country together with that country's own
-- currency, one of the three pairs, and has a name and an entity's name that are not blank; and
-- at most one of the requests is without an answer, exactly while the form is pending.
pub Reached-IsAccepted :
    (f : Form)
    → Reached f
    → All IsAccepted f.sent × (length f.sent ≡ f.answered + in_flight f.is_pending)
Reached-IsAccepted f h = let (a, b, c) = Reached-IsSound h in (b, c)
