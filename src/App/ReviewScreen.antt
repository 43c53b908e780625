-- ===== src/App/ReviewScreen.antt =====
-- web/src/app/ReviewScreen.tsx: what the review screen keeps, shows, and does on a key or a click. The
-- groups, the categories and the locale are those that the queries hold while the screen is used; the
-- markup, the transactions and the virtual rows are not modelled.
pub mod Options
pub mod Laws
pub mod Keys
use vekst.Prelude.{
  Text, codes, ℕ, ◌+◌, ◌-◌, List, [], ◌∷◌, ◌++◌, map, Option, none, some, Bool, true, false, not,
  ◌&&◌, ◌||◌, ◌==◌, if◌then◌else◌, length, get_elem?, take, leb,
}
use Prim.Native.Nat.{min}
use vekst.Prelude.Strings.{text_eq, starts_with, trim, to_lower_case, join, includes}
use vekst.Prelude.Result.{Failure, resolve_group}
use vekst.Locale.{Locale}
use vekst.I18n.{t, auth_error_message}
use vekst.App.CategoryTree.{
  Category, TreeLeaf, TreeNode, leaf, branch, TreeNodes, nil, cons, Side, income, expense, both,
  side_of, below_root, build_category_tree, leaves_of, open_path,
}
use vekst.Data.Review.{ReviewGroup, ReviewDecision, classify, internal_transfer, not_in_pnl}

-- What the screen is given.
pub record Shown : Type 0 where
  pub groups : List ReviewGroup
  pub categories : List Category
  pub locale : Locale

pub record Screen : Type 0 where
  pub index : ℕ
  pub selected : Option Text
  pub query : Text
  pub open_keys : List Text
  pub show_all_sides : Bool
  pub decide_error : Option Text

abbrev pub fresh : Screen
fresh = record {
  index = 0;
  selected = none;
  query = [];
  open_keys = [];
  show_all_sides = false;
  decide_error = none;
}

-- list[Math.min(index, Math.max(list.length - 1, 0))]
abbrev pub group_at : List ReviewGroup → ℕ → Option ReviewGroup
group_at list index = get_elem? list (min index (length list - 1))

abbrev all_zeros : Text → Bool
all_zeros [] = true
all_zeros (c ∷ s) = c == b'0' && all_zeros s

-- /^-?0*$/
abbrev is_nothing : Text → Bool
is_nothing [] = true
is_nothing (c ∷ s) = if c == b'-' then all_zeros s else all_zeros (c ∷ s)

abbrev units_of : Option ReviewGroup → Text
units_of none = codes "0"
units_of (some g) = g.total.minor_units

unfoldable pub group_side : Option ReviewGroup → Option Side
unfolding starts_with
group_side group =
    if is_nothing (units_of group)
    then none
    else if starts_with (units_of group) (codes "-")
    then some expense
    else some income

abbrev pub side_on : Shown → Screen → Option Side
side_on d s = if s.show_all_sides then none else group_side (group_at d.groups s.index)

abbrev pub is_offered : Option Side → Side → Bool
is_offered none s = true
is_offered (some side) both = true
is_offered (some income) income = true
is_offered (some expense) expense = true
is_offered (some _) _ = false

unfoldable pub offered : Option Side → List Category → List Category
unfolding side_of
offered side [] = []
offered side (c ∷ categories) =
    if is_offered side (side_of c.code)
    then c ∷ offered side categories
    else offered side categories

abbrev pub tree_of : Shown → Screen → TreeNode
tree_of d s = build_category_tree (offered (side_on d s) d.categories) d.locale

-- [...l.trail, l.name].join(" ").toLowerCase().includes(needle)
abbrev pub is_match : Text → TreeLeaf → Bool
is_match needle l = includes (to_lower_case (join (codes " ") (l.trail ++ l.name ∷ []))) needle

unfoldable pub matches : Text → List TreeLeaf → List TreeNode
unfolding includes to_lower_case join
matches needle [] = []
matches needle (l ∷ ls) =
    if is_match needle l then leaf l ∷ matches needle ls else matches needle ls

abbrev pub nodes_of : TreeNodes → List TreeNode
nodes_of nil = []
nodes_of (cons child rest) = child ∷ nodes_of rest

-- trail.at(-1) ?? tree
abbrev pub last_or : TreeNode → List TreeNode → TreeNode
last_or cur [] = cur
last_or cur (n ∷ ns) = last_or n ns

abbrev pub options_for : Text → TreeNode → List Text → List TreeNode
options_for [] tree keys = nodes_of (below_root (last_or tree (open_path tree keys)))
options_for (c ∷ needle) tree keys = matches (c ∷ needle) (leaves_of tree)

unfoldable pub visible_options : Shown → Screen → List TreeNode
unfolding offered build_category_tree open_path matches leaves_of trim to_lower_case
visible_options d s = options_for (to_lower_case (trim s.query)) (tree_of d s) s.open_keys

abbrev key_of : TreeNode → Text
key_of (leaf f) = f.key
key_of (branch k l children) = k

-- A leaf is selected, and a branch opened below the trail.
unfoldable pub choose : Shown → Screen → TreeNode → Screen
unfolding open_path offered build_category_tree
choose d s (leaf f) = record s { selected = some f.code }
choose d s (branch k l children) = record s {
  open_keys = map key_of (open_path (tree_of d s) s.open_keys) ++ k ∷ [];
}

abbrev pub choose_nth : Shown → Screen → ℕ → Screen
choose_nth d s n = elim (get_elem? (visible_options d s) n) [
  | none ↦ s
  | some node ↦ choose d s node
]

-- A decision is sent for the group that is shown, and an earlier error is cleared.
abbrev pub send : Option ReviewGroup → Screen → ReviewDecision → Screen × Option ReviewDecision
send none s decision = (s, none)
send (some group) s decision = (record s { decide_error = none }, some decision)

unfoldable pub begin_decision : Shown → Screen → ReviewDecision → Screen × Option ReviewDecision
begin_decision d s decision = send (group_at d.groups s.index) s decision

-- `if (selected)`: an empty text is no selection.
unfoldable pub approve : Shown → Option Text → Screen → Screen × Option ReviewDecision
unfolding begin_decision
approve d none s = (s, none)
approve d (some []) s = (s, none)
approve d (some (c ∷ code)) s = begin_decision d s (classify (c ∷ code))

-- `digit n` is the key for n + 1, with n below 9.
pub data Key : Type 0 where
  digit : ℕ → Key
  enter letter_t letter_n arrow_down arrow_up backspace escape other_key : Key

-- A key with what was held, and whether an input has the focus.
pub record Press : Type 0 where
  pub modified : Bool
  pub typing : Bool
  pub key : Key

abbrev but_last_key : List Text → List Text
but_last_key keys = take (length keys - 1) keys

unfoldable pub on_command : Shown → Key → Screen → Screen × Option ReviewDecision
unfolding begin_decision approve
on_command d (digit n) s = (s, none)
on_command d enter s = approve d s.selected s
on_command d letter_t s = begin_decision d s internal_transfer
on_command d letter_n s = begin_decision d s not_in_pnl
on_command d arrow_down s = (record s { index = min (s.index + 1) (length d.groups - 1) }, none)
on_command d arrow_up s = (record s { index = s.index - 1 }, none)
on_command d backspace s = (record s { open_keys = but_last_key s.open_keys }, none)
on_command d escape s = (record s { selected = none; open_keys = [] }, none)
on_command d other_key s = (s, none)

unfoldable pub on_unmodified : Shown → Bool → Key → Screen → Screen × Option ReviewDecision
unfolding visible_options choose on_command
on_unmodified d typing (digit n) s = (choose_nth d s n, none)
on_unmodified d typing enter s = on_command d enter s
on_unmodified d true key s = (s, none)
on_unmodified d false key s = on_command d key s

unfoldable pub on_key : Shown → Press → Screen → Screen × Option ReviewDecision
unfolding on_unmodified
on_key d p s = if p.modified then (s, none) else on_unmodified d p.typing p.key s

-- The button that shows the other side, or hides it.
unfoldable pub toggle_sides : Screen → Screen
toggle_sides s = record s {
  selected = if s.show_all_sides then none else s.selected;
  show_all_sides = not s.show_all_sides;
  open_keys = [];
}

-- A click on the breadcrumb's part `i`.
unfoldable pub open_to : Shown → ℕ → Screen → Screen
unfolding open_path offered build_category_tree
open_to d i s = record s { open_keys = map key_of (take i (open_path (tree_of d s) s.open_keys)) }

unfoldable pub decided : Screen → Screen
decided s = record s { selected = none; index = 0 }

abbrev joined : Option (Option Text) → Option Text
joined none = none
joined (some text) = text

abbrev message_of : Locale → Failure → Option Text
message_of locale (resolve_group code) = joined (auth_error_message (some code) locale)
message_of locale _ = t (codes "error.unknown") locale

unfoldable pub decision_failed : Locale → Failure → Screen → Screen
unfolding auth_error_message t
decision_failed locale e s = record s { decide_error = message_of locale e }

abbrev pub key_at : Shown → ℕ → Option Text
key_at d index = elim (group_at d.groups index) [ none ↦ none | some g ↦ some g.counterparty_key ]

abbrev pub same_key : Option Text → Option Text → Bool
same_key none none = true
same_key (some a) (some b) = text_eq a b
same_key _ _ = false

-- The effect that runs where the shown group's key has changed.
unfoldable pub scoped : Shown → Screen → Screen → Screen
unfolding text_eq
scoped d before after =
    if same_key (key_at d before.index) (key_at d after.index)
    then after
    else record fresh { index = after.index }
