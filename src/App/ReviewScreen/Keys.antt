-- ===== src/App/ReviewScreen/Keys.antt =====
-- What a key on the review screen may send.
use mathlib.Core.Path.{subst}
use vekst.Prelude.{
  Text, ◌≡◌, refl, [], ◌∷◌, Option, none, some, Bool, true, false, if◌then◌else◌, arith,
}
use vekst.App.CategoryTree.{}
use vekst.Data.Review.{ReviewGroup, ReviewDecision, classify, internal_transfer, not_in_pnl}
use vekst.App.ReviewScreen.{
  Shown, Screen, group_at, send, begin_decision, approve, Key, digit, enter, letter_t, letter_n,
  arrow_down, arrow_up, backspace, escape, other_key, Press, on_command, on_unmodified, on_key,
}

-- What a key sent.
pub data Sent (s : Screen) (p : Press) : ReviewDecision → Type 0 where
  by_enter : (code : Text) → p.key ≡ enter → s.selected ≡ some code → Sent s p (classify code)
  by_t : p.key ≡ letter_t → p.typing ≡ false → Sent s p internal_transfer
  by_n : p.key ≡ letter_n → p.typing ≡ false → Sent s p not_in_pnl

module _ (d : Shown) (s : Screen) where
  send-some :
      (o : Option ReviewGroup) (x y : ReviewDecision)
      → (send o s x).1 ≡ some y
      → ((g : ReviewGroup) × (o ≡ some g)) × (x ≡ y)
  send-some none x y h = absurd (cc h)
  send-some (some g) x y h = ((g, refl), ground arith)

  -- A decision and the group it is for.
  abbrev pub IsSent : Press → ReviewDecision → Type 0
  IsSent p y = ((g : ReviewGroup) × (group_at d.groups s.index ≡ some g)) × Sent s p y

  began :
      (p : Press) (x y : ReviewDecision)
      → Sent s p x
      → (begin_decision d s x).1 ≡ some y
      → IsSent p y
  unfolding begin_decision
  began p x y sent h =
      let (g, same) = send-some (group_at d.groups s.index) x y h in (g, subst (Sent s p) same sent)

  approved :
      (p : Press) (o : Option Text) (y : ReviewDecision)
      → p.key ≡ enter
      → s.selected ≡ o
      → (approve d o s).1 ≡ some y
      → IsSent p y
  unfolding approve
  approved p none y k e h = absurd (cc h)
  approved p (some []) y k e h = absurd (cc h)
  approved p (some (c ∷ code)) y k e h = began p (classify (c ∷ code)) y (by_enter (c ∷ code) k e) h

  unmodified :
      (p : Press) (typing : Bool) (key : Key) (y : ReviewDecision)
      → p.typing ≡ typing
      → p.key ≡ key
      → (on_unmodified d typing key s).1 ≡ some y
      → IsSent p y
  unfolding on_unmodified on_command
  unmodified p typing (digit n) y t k h = absurd (cc h)
  unmodified p typing enter y t k h = approved p s.selected y k refl h
  unmodified p true letter_t y t k h = absurd (cc h)
  unmodified p true letter_n y t k h = absurd (cc h)
  unmodified p true arrow_down y t k h = absurd (cc h)
  unmodified p true arrow_up y t k h = absurd (cc h)
  unmodified p true backspace y t k h = absurd (cc h)
  unmodified p true escape y t k h = absurd (cc h)
  unmodified p true other_key y t k h = absurd (cc h)
  unmodified p false letter_t y t k h = began p internal_transfer y (by_t k t) h
  unmodified p false letter_n y t k h = began p not_in_pnl y (by_n k t) h
  unmodified p false arrow_down y t k h = absurd (cc h)
  unmodified p false arrow_up y t k h = absurd (cc h)
  unmodified p false backspace y t k h = absurd (cc h)
  unmodified p false escape y t k h = absurd (cc h)
  unmodified p false other_key y t k h = absurd (cc h)

  -- A key that sends a decision is pressed with no modifier, while a group is shown. It is Enter, and then
  -- the decision classifies the group under the code that is selected; or it is T or N with no input in
  -- focus, and then it is that of the key. So a letter that is typed into the filter decides nothing.
  pub on_key-Sent :
      (p : Press) (y : ReviewDecision)
      → (on_key d p s).1 ≡ some y
      → (p.modified ≡ false) × IsSent p y
  unfolding on_key
  on_key-Sent p y h = go p.modified refl h
    where
      go :
          (modified : Bool)
          → p.modified ≡ modified
          → (if modified then (s, none) else on_unmodified d p.typing p.key s).1 ≡ some y
          → (p.modified ≡ false) × IsSent p y
      go true e k = absurd (cc k)
      go false e k = (e, unmodified p p.typing p.key y refl refl k)
