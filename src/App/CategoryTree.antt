-- ===== src/App/CategoryTree.antt =====
-- web/src/app/categoryTree.ts. The map from keys to branches is the tree itself: the branch that the
-- map holds for a key is the one branch of the tree with that key, wherever it stands.
pub mod Counts
pub mod Laws
pub mod Folding
use vekst.Prelude.{
  Text, codes, ℕ, zero, suc, ◌+◌, ◌*◌, ◌-◌, List, [], ◌∷◌, ◌++◌, map, Option, none, some, Bool,
  true, false, not, ◌&&◌, ◌||◌, ◌==◌, if◌then◌else◌, take, length,
}
use mathlib.Core.List.{filter_map}
use vekst.Prelude.Strings.{text_eq, starts_with, trim, split_on}
use vekst.Locale.{Locale}
use vekst.App.LineName.{line_name}
use vekst.App.CategoryName.{category_name, branch_name}

-- web/src/data/review.ts
pub record Category : Type 0 where
  pub id : Text
  pub code : Text
  pub label : Text
  pub path : Text

abbrev pub separator : Text
separator = codes " › "

pub record TreeLeaf : Type 0 where
  pub key : Text
  pub code : Text
  pub name : Text
  pub label : Text
  pub trail : List Text

mutual
  pub data TreeNode : Type 0 where
    leaf : TreeLeaf → TreeNode
    branch : (key label : Text) → TreeNodes → TreeNode

  pub data TreeNodes : Type 0 where
    nil : TreeNodes
    cons : TreeNode → TreeNodes → TreeNodes

pub data Side : Type 0 where
  income expense both : Side

abbrev pub sides : List (Text × Side)
sides =
    (codes "01", income)
    ∷ (codes "0502", income)
    ∷ (codes "0602", income)
    ∷ (codes "02", expense)
    ∷ (codes "03", expense)
    ∷ (codes "04", expense)
    ∷ (codes "0501", expense)
    ∷ (codes "07", expense)
    ∷ (codes "08", expense)
    ∷ []

unfoldable pub find_side : Text → List (Text × Side) → Side
unfolding starts_with
find_side code [] = both
find_side code ((prefix, side) ∷ rest) =
    if starts_with code prefix then side else find_side code rest

unfoldable pub side_of : Text → Side
unfolding find_side
side_of code = find_side code sides

unfoldable pub not_empty : List Text → List Text
not_empty [] = []
not_empty ([] ∷ xs) = not_empty xs
not_empty ((c ∷ s) ∷ xs) = (c ∷ s) ∷ not_empty xs

unfoldable pub segments_of : Text → List Text
unfolding split_on trim not_empty
segments_of path = not_empty (map trim (split_on b'>' [] path))

-- branches.get(key), below the root
unfoldable mutual
  unfolding text_eq

  pub has_branch : Text → TreeNode → Bool
  has_branch key (leaf f) = false
  has_branch key (branch k l children) = text_eq k key || has_branch_in key children

  pub has_branch_in : Text → TreeNodes → Bool
  has_branch_in key nil = false
  has_branch_in key (cons child rest) = has_branch key child || has_branch_in key rest

unfoldable pub push_last : TreeNode → TreeNodes → TreeNodes
push_last node nil = cons node nil
push_last node (cons child rest) = cons child (push_last node rest)

-- parent.children.push(node), for the branch with the parent's key
unfoldable mutual
  unfolding text_eq push_last

  pub push_under : Text → TreeNode → TreeNode → TreeNode
  push_under parent node (leaf f) = leaf f
  push_under parent node (branch k l children) =
      let below = push_under_in parent node children in
      if text_eq k parent then branch k l (push_last node children) else branch k l below

  pub push_under_in : Text → TreeNode → TreeNodes → TreeNodes
  push_under_in parent node nil = nil
  push_under_in parent node (cons child rest) =
      cons (push_under parent node child) (push_under_in parent node rest)

abbrev pub below_root : TreeNode → TreeNodes
below_root (leaf f) = nil
below_root (branch k l children) = children

-- A name as JavaScript prints it into a text.
abbrev pub printed : Option Text → Text
printed none = codes "undefined"
printed (some s) = s

abbrev branch_label : Option Text → ℕ → Text → Locale → Text
branch_label none i raw locale = raw
branch_label (some code) zero raw locale = printed (line_name code raw locale)
branch_label (some code) (suc i) raw locale = printed (branch_name code raw locale)

abbrev or_raw : Option Text → Text → Text
or_raw none raw = raw
or_raw (some code) raw = code

-- branches.get(key), or a new branch under the parent
unfoldable pub ensure_branch : Text → Text → Text → TreeNode → TreeNode
unfolding has_branch push_under
ensure_branch parent key label root =
    if has_branch_in key (below_root root)
    then root
    else push_under parent (branch key label nil) root

-- The walk down the ancestors, with the parent's key and the trail so far.
unfoldable pub walk :
    Bool → Text → Locale → ℕ → List Text → Text → List Text → TreeNode → TreeNode × Text × List Text
unfolding ensure_branch
walk aligned code locale i [] parent trail root = (root, parent, trail)
walk aligned code locale i (raw ∷ ancestors) parent trail root =
    let cut = if aligned then some (take (2 * (i + 1)) code) else none in
    let label = branch_label cut i raw locale in
    let key = parent ++ b'/' ∷ or_raw cut raw in
    walk aligned code locale (suc i) ancestors key (trail ++ label ∷ [])
      (ensure_branch parent key label root)

-- segments.slice(0, -1)
unfoldable pub ancestors_of : List Text → List Text
ancestors_of [] = []
ancestors_of (s ∷ []) = []
ancestors_of (s ∷ s' ∷ rest) = s ∷ ancestors_of (s' ∷ rest)

unfoldable pub add_category : Locale → TreeNode → Category → TreeNode
unfolding segments_of ancestors_of walk push_under
add_category locale root c =
    let segments = segments_of c.path in
    let aligned = length c.code == 2 * length segments in
    let (root', parent, trail) = walk aligned c.code locale 0 (ancestors_of segments) [] [] root in
    let name = printed (category_name c.code c.label locale) in
    let node = leaf (record {
      key = parent ++ b'/' ∷ c.code;
      code = c.code;
      name = name;
      label = name;
      trail = trail;
    }) in
    push_under parent node root'

unfoldable pub add_all : Locale → TreeNode → List Category → TreeNode
unfolding add_category
add_all locale root [] = root
add_all locale root (c ∷ categories) = add_all locale (add_category locale root c) categories

-- A child under the labels of the branches that were folded into it.
unfoldable mutual
  pub fold_child : Text → TreeNode → TreeNode
  fold_child prefix (leaf f) = leaf (record f { label = prefix ++ f.label })
  fold_child prefix (branch k l nil) = branch k (prefix ++ l) nil
  fold_child prefix (branch k l (cons only nil)) = fold_child (prefix ++ (l ++ separator)) only
  fold_child prefix (branch k l (cons a (cons b rest))) =
      branch k (prefix ++ l) (cons (fold_child [] a) (cons (fold_child [] b) (fold_children rest)))

  pub fold_children : TreeNodes → TreeNodes
  fold_children nil = nil
  fold_children (cons child rest) = cons (fold_child [] child) (fold_children rest)

unfoldable pub fold : TreeNode → TreeNode
unfolding fold_child
fold (leaf f) = leaf f
fold (branch k l children) = branch k l (fold_children children)

unfoldable pub fold_sections : TreeNodes → TreeNodes
unfolding fold
fold_sections nil = nil
fold_sections (cons section rest) = cons (fold section) (fold_sections rest)

abbrev pub empty_root : TreeNode
empty_root = branch [] [] nil

unfoldable pub build_category_tree : List Category → Locale → TreeNode
unfolding add_all fold_sections
build_category_tree categories locale =
    branch [] [] (fold_sections (below_root (add_all locale empty_root categories)))

unfoldable mutual
  pub leaves_of : TreeNode → List TreeLeaf
  leaves_of (leaf f) = f ∷ []
  leaves_of (branch k l children) = leaves_in children

  pub leaves_in : TreeNodes → List TreeLeaf
  leaves_in nil = []
  leaves_in (cons child rest) = leaves_of child ++ leaves_in rest

-- children.find(c => c.kind === "branch" && c.key === key)
unfoldable pub child_branch : Text → TreeNodes → Option TreeNode
unfolding text_eq
child_branch key nil = none
child_branch key (cons (leaf f) rest) = child_branch key rest
child_branch key (cons (branch k l children) rest) =
    if text_eq k key then some (branch k l children) else child_branch key rest

unfoldable pub open_path : TreeNode → List Text → List TreeNode
unfolding child_branch
open_path cur [] = []
open_path cur (key ∷ keys) = elim (child_branch key (below_root cur)) [
  | none ↦ []
  | some next ↦ next ∷ open_path next keys
]
