-- ===== src/Examples/Screens.antt =====
-- The review screen at concrete inputs.
use vekst.Prelude.{Text, codes, ℕ, pos, ◌≡◌, ◌≤◌, refl, [], ◌∷◌, some, false, arith}
use Prim.Native.Nat.{min}
use vekst.Prelude.Strings.{text_eq, starts_with, trim, to_lower_case, split_on}
use vekst.Locale.{en}
use vekst.App.LineName.{has}
use vekst.App.CategoryName.{category_name}
use vekst.App.CategoryTree.{
  Category, side_of, find_side, segments_of, not_empty, ancestors_of, walk, push_under, push_last,
  add_category, add_all, fold_sections, fold, fold_child, build_category_tree, open_path,
}
use vekst.App.CategoryTree.Counts.{count}
use vekst.App.CategoryTree.Laws.{category_codes}
use vekst.Data.Review.{ReviewGroup, internal_transfer}
use vekst.App.ReviewScreen.{
  Shown, Screen, fresh, offered, side_on, group_side, visible_options, choose, scoped, Press,
  letter_t, on_key, on_unmodified, on_command, begin_decision,
}
use vekst.App.ReviewScreen.Laws.{IsKeyed, click_option, handle, opens, after, selected-IsOffered}
use vekst.App.ReviewScreen.Keys.{IsSent, on_key-Sent}

abbrev landlord : ReviewGroup
landlord = record {
  counterparty_key = codes "landlord";
  counterparty_label = codes "Landlord";
  row_count = pos 2;
  total = record { minor_units = codes "-250000"; currency_code = codes "EUR" };
  first_seen = codes "2026-01-02";
  last_seen = codes "2026-02-02";
}

abbrev category : Text → Text → Category
category code label = record { id = code; code = code; label = label; path = [] }

abbrev shown : Shown
shown = record {
  groups = landlord ∷ [];
  categories =
      category (codes "0199") (codes "Sales") ∷ category (codes "0399") (codes "Rent") ∷ [];
  locale = en;
}

min_zero : (i : ℕ) → min i 0 ≡ 0
min_zero i = omega arith

shown-IsKeyed : IsKeyed shown
shown-IsKeyed i j h = rw (min_zero i) (rw (min_zero j) refl)

abbrev chosen : Screen
chosen = scoped shown fresh (handle shown (click_option 0) fresh)

-- The first option on screen is the one expense.
rent_chosen : chosen.selected ≡ some (codes "0399")
unfolding scoped visible_options choose offered side_of find_side starts_with group_side
    build_category_tree add_all add_category segments_of split_on trim not_empty ancestors_of walk
    push_under push_last text_eq category_name has fold_sections fold fold_child open_path
    to_lower_case
rent_chosen = refl

selected-IsOffered_example :
    1 ≤ count (codes "0399") (category_codes (offered (side_on shown chosen) (shown.categories)))
selected-IsOffered_example =
    selected-IsOffered shown shown-IsKeyed chosen (codes "0399") (after (click_option 0) opens)
      rent_chosen

abbrev a_t : Press
a_t = record { modified = false; typing = false; key = letter_t }

t_sends : (on_key shown a_t fresh).1 ≡ some internal_transfer
unfolding on_key on_unmodified on_command begin_decision
t_sends = refl

on_key-Sent_example : (a_t.modified ≡ false) × IsSent shown fresh a_t internal_transfer
on_key-Sent_example = on_key-Sent shown fresh a_t internal_transfer t_sends
