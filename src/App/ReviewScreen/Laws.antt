-- ===== src/App/ReviewScreen/Laws.antt =====
-- The choices of the review screen: what can be armed behind Enter, and what a key may do.
use mathlib.Core.Path.{subst}
use vekst.Prelude.{
  Text, ℕ, ◌≤◌, ◌≡◌, refl, sym, ◌⊎◌, inl, inr, List, [], ◌∷◌, Option, none, some, Bool, true, false,
  not, if◌then◌else◌, arith, get_elem?, Bool-cases,
}
use vekst.Prelude.Strings.{trim, to_lower_case}
use vekst.Prelude.Result.{Failure}
use vekst.App.CategoryTree.{Category, TreeLeaf, TreeNode, leaf, branch, Side, side_of}
use vekst.App.CategoryTree.Counts.{count}
use vekst.App.CategoryTree.Laws.{category_codes, count-build_category_tree}
use vekst.Data.Review.{ReviewGroup, ReviewDecision, classify, internal_transfer, not_in_pnl}
use vekst.App.ReviewScreen.Options.{option_counted}
use vekst.App.ReviewScreen.{
  Shown, Screen, fresh, group_at, group_side, side_on, is_offered, offered, tree_of,
  visible_options, choose, choose_nth, send, begin_decision, approve, Key, digit, enter, letter_t,
  letter_n, arrow_down, arrow_up, backspace, escape, other_key, Press, on_command, on_unmodified,
  on_key, toggle_sides, open_to, decided, decision_failed, key_at, same_key, scoped,
}

-- A selection is armed only with the code of a category that is offered.
abbrev IsArmed : Option Side → List Category → Option Text → Type 0
IsArmed side categories none = Unit
IsArmed side categories (some code) = 1 ≤ count code (category_codes (offered side categories))

abbrev pub IsScreen : Shown → Screen → Type 0
IsScreen d s = IsArmed (side_on d s) d.categories s.selected

visible-IsArmed :
    (d : Shown) (s : Screen) (n : ℕ) (f : TreeLeaf)
    → get_elem? (visible_options d s) n ≡ some (leaf f)
    → IsArmed (side_on d s) d.categories (some f.code)
unfolding visible_options
visible-IsArmed d s n f h = omega (
  arith,
  count-build_category_tree f.code (offered (side_on d s) d.categories) d.locale,
  option_counted f.code (to_lower_case (trim s.query)) (tree_of d s) s.open_keys n f refl h,
)

choose_nth-IsScreen :
    (d : Shown) (s : Screen) (n : ℕ) → IsScreen d s → IsScreen d (choose_nth d s n)
unfolding choose
choose_nth-IsScreen d s n h = go (get_elem? (visible_options d s) n) refl
  where
    go :
        (o : Option TreeNode)
        → get_elem? (visible_options d s) n ≡ o
        → IsScreen d (elim o [ none ↦ s | some node ↦ choose d s node ])
    go none e = h
    go (some (leaf f)) e = visible-IsArmed d s n f e
    go (some (branch k l children)) e = h

-- The screen as a command leaves it, the group apart.
abbrev Keeps : Shown → Screen → Screen → Type 0
Keeps d s s' =
    (s'.show_all_sides ≡ s.show_all_sides) × ((s'.selected ≡ s.selected) ⊎ (s'.selected ≡ none))

begin_decision-Keeps :
    (d : Shown) (s : Screen) (decision : ReviewDecision) → Keeps d s (begin_decision d s decision).0
unfolding begin_decision
begin_decision-Keeps d s decision = go (group_at d.groups s.index)
  where
    go : (o : Option ReviewGroup) → Keeps d s (send o s decision).0
    go none = (refl, inl refl)
    go (some group) = (refl, inl refl)

approve-Keeps : (d : Shown) (o : Option Text) (s : Screen) → Keeps d s (approve d o s).0
unfolding approve
approve-Keeps d none s = (refl, inl refl)
approve-Keeps d (some []) s = (refl, inl refl)
approve-Keeps d (some (c ∷ code)) s = begin_decision-Keeps d s (classify (c ∷ code))

on_command-Keeps : (d : Shown) (key : Key) (s : Screen) → Keeps d s (on_command d key s).0
unfolding on_command
on_command-Keeps d (digit n) s = (refl, inl refl)
on_command-Keeps d enter s = approve-Keeps d s.selected s
on_command-Keeps d letter_t s = begin_decision-Keeps d s internal_transfer
on_command-Keeps d letter_n s = begin_decision-Keeps d s not_in_pnl
on_command-Keeps d arrow_down s = (refl, inl refl)
on_command-Keeps d arrow_up s = (refl, inl refl)
on_command-Keeps d backspace s = (refl, inl refl)
on_command-Keeps d escape s = (refl, inr refl)
on_command-Keeps d other_key s = (refl, inl refl)

-- A counterparty's key names one group.
abbrev pub IsKeyed : Shown → Type 0
IsKeyed d =
    (i j : ℕ)
    → same_key (key_at d i) (key_at d j) ≡ true
    → group_at d.groups i ≡ group_at d.groups j

-- The effect empties the selection wherever the group has changed.
scoped-IsScreen :
    (d : Shown) (s s' : Screen)
    → IsKeyed d
    → (group_at d.groups s.index ≡ group_at d.groups s'.index → IsScreen d s')
    → IsScreen d (scoped d s s')
unfolding scoped
scoped-IsScreen d s s' keyed h =
    elim (Bool-cases (same_key (key_at d s.index) (key_at d s'.index))) [
      | inl same ↦ rw same (h (keyed s.index s'.index same))
      | inr other ↦ rw other tt
    ]

Keeps-IsScreen :
    (d : Shown) (s s' : Screen)
    → Keeps d s s'
    → IsScreen d s
    → group_at d.groups s.index ≡ group_at d.groups s'.index
    → IsScreen d s'
Keeps-IsScreen d s s' (shows, inl kept) h g =
    subst (λ x. x)
      (λ i. IsArmed (if sym shows i then none else group_side (g i)) d.categories (sym kept i)) h
Keeps-IsScreen d s s' (shows, inr gone) h g =
    subst (IsArmed (side_on d s') d.categories) (sym gone) tt

offered_more :
    (side : Option Side) (code : Text) (categories : List Category)
    → count code (category_codes (offered side categories))
      ≤ count code (category_codes (offered none categories))
unfolding offered count
offered_more side code [] = omega arith
offered_more side code (c ∷ categories) = elim (Bool-cases (is_offered side (side_of c.code))) [
  | inl offers ↦ rw offers (omega (arith, offered_more side code categories))
  | inr hides ↦ rw hides (omega (arith, offered_more side code categories))
]

toggle_sides-IsScreen : (d : Shown) (s : Screen) → IsScreen d s → IsScreen d (toggle_sides s)
unfolding toggle_sides
toggle_sides-IsScreen d s h = go s.show_all_sides s.selected h
  where
    go :
        (shows : Bool) (o : Option Text)
        → IsArmed (if shows then none else group_side (group_at d.groups s.index)) d.categories o
        → IsArmed
            (if not shows then none else group_side (group_at d.groups s.index))
            d.categories
            (if shows then none else o)
    go true o k = tt
    go false none k = tt
    go false (some code) k =
        omega (arith, k, offered_more (group_side (group_at d.groups s.index)) code d.categories)

-- What can happen on the screen: a key, a click on an option, on the button of the sides or on the
-- breadcrumb, text in the filter, and what a decision that was sent comes to.
pub data Event : Type 0 where
  press : Press → Event
  click_option : ℕ → Event
  click_sides : Event
  click_crumb : ℕ → Event
  type_query : Text → Event
  succeed : Event
  fail : Failure → Event

abbrev pub handle : Shown → Event → Screen → Screen
handle d (press p) s = (on_key d p s).0
handle d (click_option n) s = choose_nth d s n
handle d click_sides s = toggle_sides s
handle d (click_crumb i) s = open_to d i s
handle d (type_query q) s = record s { query = q }
handle d succeed s = decided s
handle d (fail e) s = decision_failed d.locale e s

-- The screens that events lead to, each followed by the effect.
pub data Reachable (d : Shown) : Screen → Type 0 where
  opens : Reachable d fresh
  after : {s : Screen} (e : Event) → Reachable d s → Reachable d (scoped d s (handle d e s))

module _ (d : Shown) (keyed : IsKeyed d) where
  kept-IsScreen : (s s' : Screen) → Keeps d s s' → IsScreen d s → IsScreen d (scoped d s s')
  kept-IsScreen s s' k h = scoped-IsScreen d s s' keyed (Keeps-IsScreen d s s' k h)

  on_unmodified-IsScreen :
      (typing : Bool) (key : Key) (s : Screen)
      → IsScreen d s
      → IsScreen d (scoped d s (on_unmodified d typing key s).0)
  unfolding on_unmodified
  on_unmodified-IsScreen typing (digit n) s h =
      scoped-IsScreen d s (choose_nth d s n) keyed (λ _. choose_nth-IsScreen d s n h)
  on_unmodified-IsScreen typing enter s h =
      kept-IsScreen s (on_command d enter s).0 (on_command-Keeps d enter s) h
  on_unmodified-IsScreen true letter_t s h = kept-IsScreen s s (refl, inl refl) h
  on_unmodified-IsScreen true letter_n s h = kept-IsScreen s s (refl, inl refl) h
  on_unmodified-IsScreen true arrow_down s h = kept-IsScreen s s (refl, inl refl) h
  on_unmodified-IsScreen true arrow_up s h = kept-IsScreen s s (refl, inl refl) h
  on_unmodified-IsScreen true backspace s h = kept-IsScreen s s (refl, inl refl) h
  on_unmodified-IsScreen true escape s h = kept-IsScreen s s (refl, inl refl) h
  on_unmodified-IsScreen true other_key s h = kept-IsScreen s s (refl, inl refl) h
  on_unmodified-IsScreen false letter_t s h = kept-IsScreen s _ (on_command-Keeps d letter_t s) h
  on_unmodified-IsScreen false letter_n s h = kept-IsScreen s _ (on_command-Keeps d letter_n s) h
  on_unmodified-IsScreen false arrow_down s h =
      kept-IsScreen s _ (on_command-Keeps d arrow_down s) h
  on_unmodified-IsScreen false arrow_up s h = kept-IsScreen s _ (on_command-Keeps d arrow_up s) h
  on_unmodified-IsScreen false backspace s h = kept-IsScreen s _ (on_command-Keeps d backspace s) h
  on_unmodified-IsScreen false escape s h = kept-IsScreen s _ (on_command-Keeps d escape s) h
  on_unmodified-IsScreen false other_key s h = kept-IsScreen s _ (on_command-Keeps d other_key s) h

  on_key-IsScreen :
      (p : Press) (s : Screen) → IsScreen d s → IsScreen d (scoped d s (on_key d p s).0)
  unfolding on_key
  on_key-IsScreen p s h = go p.modified
    where
      go :
          (modified : Bool)
          → IsScreen d
              (scoped d s (if modified then (s, none) else on_unmodified d p.typing p.key s).0)
      go true = kept-IsScreen s s (refl, inl refl) h
      go false = on_unmodified-IsScreen p.typing p.key s h

  handle-IsScreen : (e : Event) (s : Screen) → IsScreen d s → IsScreen d (scoped d s (handle d e s))
  unfolding open_to decided decision_failed
  handle-IsScreen (press p) s h = on_key-IsScreen p s h
  handle-IsScreen (click_option n) s h =
      scoped-IsScreen d s (choose_nth d s n) keyed (λ _. choose_nth-IsScreen d s n h)
  handle-IsScreen click_sides s h =
      scoped-IsScreen d s (toggle_sides s) keyed (λ _. toggle_sides-IsScreen d s h)
  handle-IsScreen (click_crumb i) s h = kept-IsScreen s _ (refl, inl refl) h
  handle-IsScreen (type_query q) s h = kept-IsScreen s _ (refl, inl refl) h
  handle-IsScreen succeed s h = kept-IsScreen s _ (refl, inr refl) h
  handle-IsScreen (fail e) s h = kept-IsScreen s _ (refl, inl refl) h

  Reachable-IsScreen : (s : Screen) → Reachable d s → IsScreen d s
  Reachable-IsScreen _ opens = tt
  Reachable-IsScreen _ (after {s} e r) = handle-IsScreen e s (Reachable-IsScreen s r)

  -- Nothing invisible is armed behind Enter: however the screen was used, and while the groups and the
  -- categories are as they were when it opened, a code that is selected is the code of a category of
  -- the side that is offered now for the group that is shown now. A counterparty's key names one group.
  pub selected-IsOffered :
      (s : Screen) (code : Text)
      → Reachable d s
      → s.selected ≡ some code
      → 1 ≤ count code (category_codes (offered (side_on d s) d.categories))
  selected-IsOffered s code r e =
      subst (IsArmed (side_on d s) d.categories) e (Reachable-IsScreen s r)
