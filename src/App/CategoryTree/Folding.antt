-- ===== src/App/CategoryTree/Folding.antt =====
-- What folding does to the tree, and which branches an open path names.
use mathlib.Core.List.{append-nil}
use mathlib.Core.Path.{subst}
use vekst.Prelude.{
  Text, ◌≡◌, ◌≢◌, refl, List, [], ◌∷◌, ◌++◌, none, some, arith, Bool-cases, Option-cases, ◌⊎◌, inl,
  inr,
}
use vekst.Prelude.Strings.{text_eq, text_eq_iff}
use vekst.App.CategoryTree.{
  TreeLeaf, TreeNode, leaf, branch, TreeNodes, nil, cons, below_root, separator, fold_child,
  fold_children, fold, fold_sections, leaves_of, leaves_in, child_branch, open_path,
}

-- A branch below a section that has one child only.
abbrev mutual
  pub NoChain : TreeNode → Type 0
  NoChain (leaf f) = Unit
  NoChain (branch k l nil) = Unit
  NoChain (branch k l (cons a nil)) = ⊥
  NoChain (branch k l (cons a (cons b rest))) = NoChain a × NoChain b × NoChainIn rest

  pub NoChainIn : TreeNodes → Type 0
  NoChainIn nil = Unit
  NoChainIn (cons child rest) = NoChain child × NoChainIn rest

-- The sections themselves may have one child.
abbrev pub IsFolded : TreeNodes → Type 0
IsFolded nil = Unit
IsFolded (cons (leaf f) rest) = IsFolded rest
IsFolded (cons (branch k l children) rest) = NoChainIn children × IsFolded rest

mutual
  unfolding fold_child fold_children

  fold_child-NoChain : (prefix : Text) (n : TreeNode) → NoChain (fold_child prefix n)
  fold_child-NoChain prefix (leaf f) = tt
  fold_child-NoChain prefix (branch k l nil) = tt
  fold_child-NoChain prefix (branch k l (cons only nil)) =
      fold_child-NoChain (prefix ++ (l ++ separator)) only
  fold_child-NoChain prefix (branch k l (cons a (cons b rest))) =
      (fold_child-NoChain [] a, fold_child-NoChain [] b, fold_children-NoChain rest)

  fold_children-NoChain : (ns : TreeNodes) → NoChainIn (fold_children ns)
  fold_children-NoChain nil = tt
  fold_children-NoChain (cons child rest) =
      (fold_child-NoChain [] child, fold_children-NoChain rest)

fold_sections-IsFolded : (ns : TreeNodes) → IsFolded (fold_sections ns)
unfolding fold_sections fold
fold_sections-IsFolded nil = tt
fold_sections-IsFolded (cons (leaf f) rest) = fold_sections-IsFolded rest
fold_sections-IsFolded (cons (branch k l children) rest) =
    (fold_children-NoChain children, fold_sections-IsFolded rest)

-- What a leaf is, its label apart.
abbrev pub identities : List TreeLeaf → List (Text × Text × Text × List Text)
identities [] = []
identities (f ∷ fs) = (f.key, f.code, f.name, f.trail) ∷ identities fs

identities-append : (xs ys : List TreeLeaf) → identities (xs ++ ys) ≡ identities xs ++ identities ys
identities-append [] ys = refl
identities-append (x ∷ xs) ys = rw (identities-append xs ys)

identities-cons :
    (n : TreeNode) (ns : TreeNodes)
    → identities (leaves_in (cons n ns)) ≡ identities (leaves_of n) ++ identities (leaves_in ns)
unfolding leaves_in
identities-cons n ns = identities-append (leaves_of n) (leaves_in ns)

identities-branch :
    (k l : Text) (ns : TreeNodes)
    → identities (leaves_of (branch k l ns)) ≡ identities (leaves_in ns)
unfolding leaves_of
identities-branch k l ns = refl

identities-only :
    (k l : Text) (n : TreeNode)
    → identities (leaves_of (branch k l (cons n nil))) ≡ identities (leaves_of n)
unfolding leaves_of leaves_in
identities-only k l n = rw (append-nil (leaves_of n))

identities-leaf :
    (f : TreeLeaf) (l : Text)
    → identities (leaves_of (leaf (record f { label = l }))) ≡ identities (leaves_of (leaf f))
unfolding leaves_of
identities-leaf f l = refl

mutual
  unfolding fold_child fold_children

  identities-fold_child :
      (prefix : Text) (n : TreeNode)
      → identities (leaves_of (fold_child prefix n)) ≡ identities (leaves_of n)
  identities-fold_child prefix (leaf f) = identities-leaf f (prefix ++ f.label)
  identities-fold_child prefix (branch k l nil) =
      cc (identities-branch k (prefix ++ l) nil, identities-branch k l nil)
  identities-fold_child prefix (branch k l (cons only nil)) =
      rw (identities-only k l only) (identities-fold_child (prefix ++ (l ++ separator)) only)
  identities-fold_child prefix (branch k l (cons a (cons b rest))) = cc (
    identities-branch k (prefix ++ l)
        (cons (fold_child [] a) (cons (fold_child [] b) (fold_children rest))),
    identities-branch k l (cons a (cons b rest)),
    identities-cons (fold_child [] a) (cons (fold_child [] b) (fold_children rest)),
    identities-cons (fold_child [] b) (fold_children rest),
    identities-cons a (cons b rest),
    identities-cons b rest,
    identities-fold_child [] a,
    identities-fold_child [] b,
    identities-fold_children rest,
  )

  identities-fold_children :
      (ns : TreeNodes) → identities (leaves_in (fold_children ns)) ≡ identities (leaves_in ns)
  identities-fold_children nil = refl
  identities-fold_children (cons child rest) = cc (
    identities-cons (fold_child [] child) (fold_children rest),
    identities-cons child rest,
    identities-fold_child [] child,
    identities-fold_children rest,
  )

identities-fold_sections :
    (ns : TreeNodes) → identities (leaves_in (fold_sections ns)) ≡ identities (leaves_in ns)
unfolding fold_sections fold
identities-fold_sections nil = refl
identities-fold_sections (cons (leaf f) rest) = cc (
  identities-cons (leaf f) (fold_sections rest),
  identities-cons (leaf f) rest,
  identities-fold_sections rest,
)
identities-fold_sections (cons (branch k l children) rest) = cc (
  identities-cons (branch k l (fold_children children)) (fold_sections rest),
  identities-cons (branch k l children) rest,
  identities-branch k l (fold_children children),
  identities-branch k l children,
  identities-fold_children children,
  identities-fold_sections rest,
)

-- Folding leaves no branch with a single child below the sections, and keeps every leaf in its place
-- with its key, code, name and trail.
pub fold_sections_lem :
    (ns : TreeNodes)
    → IsFolded (fold_sections ns)
      × (identities (leaves_in (fold_sections ns)) ≡ identities (leaves_in ns))
fold_sections_lem ns = (fold_sections-IsFolded ns, identities-fold_sections ns)

-- A branch with a key is a child.
abbrev pub IsChild : Text → TreeNode → TreeNodes → Type 0
IsChild key n nil = ⊥
IsChild key n (cons child rest) = (child ≡ n) ⊎ IsChild key n rest

abbrev pub HasKey : Text → TreeNode → Type 0
HasKey key (leaf f) = ⊥
HasKey key (branch k l children) = k ≡ key

abbrev pub NoneHasKey : Text → TreeNodes → Type 0
NoneHasKey key nil = Unit
NoneHasKey key (cons (leaf f) rest) = NoneHasKey key rest
NoneHasKey key (cons (branch k l children) rest) = (k ≢ key) × NoneHasKey key rest

-- The branches that keys lead to from a node, as far as there are any.
abbrev pub IsOpened : TreeNode → List Text → List TreeNode → Type 0
IsOpened cur [] [] = Unit
IsOpened cur [] (_ ∷ _) = ⊥
IsOpened cur (key ∷ keys) [] = NoneHasKey key (below_root cur)
IsOpened cur (key ∷ keys) (next ∷ out) =
    HasKey key next × IsChild key next (below_root cur) × IsOpened next keys out

child_branch-some :
    (key : Text) (ns : TreeNodes) (n : TreeNode)
    → child_branch key ns ≡ some n
    → HasKey key n × IsChild key n ns
unfolding child_branch
child_branch-some key nil n h = absurd (cc)
child_branch-some key (cons (leaf f) rest) n h =
    let (a, b) = child_branch-some key rest n h in (a, inr b)
child_branch-some key (cons (branch k l children) rest) n h = elim (Bool-cases (text_eq k key)) [
  | inl e ↦
      let same : branch k l children ≡ n = ground arith in
      (subst (HasKey key) same ((text_eq_iff k key).0 e), inl same)
  | inr e ↦ let (a, b) = child_branch-some key rest n (ground arith) in (a, inr b)
]

child_branch-none : (key : Text) (ns : TreeNodes) → child_branch key ns ≡ none → NoneHasKey key ns
unfolding child_branch
child_branch-none key nil h = tt
child_branch-none key (cons (leaf f) rest) h = child_branch-none key rest h
child_branch-none key (cons (branch k l children) rest) h = elim (Bool-cases (text_eq k key)) [
  | inl e ↦ absurd (ground arith)
  | inr e ↦ ((λ p. cc ((text_eq_iff k key).1 p)), child_branch-none key rest (ground arith))
]

pub open_path-none :
    (cur : TreeNode) (key : Text) (keys : List Text)
    → child_branch key (below_root cur) ≡ none
    → open_path cur (key ∷ keys) ≡ []
unfolding open_path
open_path-none cur key keys e = ground arith

pub open_path-some :
    (cur : TreeNode) (key : Text) (keys : List Text) {next : TreeNode}
    → child_branch key (below_root cur) ≡ some next
    → open_path cur (key ∷ keys) ≡ next ∷ open_path next keys
unfolding open_path
open_path-some cur key keys e = ground arith

-- An open path gives the branches that its keys lead to, each a child of the one before, and stops
-- only at the end of the keys or where no child branch has the next key.
pub open_path-IsOpened :
    (cur : TreeNode) (keys : List Text) → IsOpened cur keys (open_path cur keys)
open_path-IsOpened cur [] = unfold open_path in tt
open_path-IsOpened cur (key ∷ keys) = elim (Option-cases (child_branch key (below_root cur))) [
  | inl e ↦ rw (open_path-none cur key keys e) (child_branch-none key (below_root cur) e)
  | inr (next, e) ↦
      let (k, c) = child_branch-some key (below_root cur) next e in
      rw (open_path-some cur key keys e) (k, c, open_path-IsOpened next keys)
]
