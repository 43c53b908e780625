-- ===== src/App/CategoryTree/Counts.antt =====
-- How often a code is among the leaves of a tree, and how often a key is found in it; what pushing a
-- node does to both.
use vekst.Prelude.{
  Text, ℕ, ◌+◌, ◌*◌, ◌≤◌, ◌≡◌, refl, true, false, List, [], ◌∷◌, ◌++◌, if◌then◌else◌, arith,
}
use vekst.Prelude.Strings.{text_eq}
use vekst.App.CategoryTree.{
  TreeLeaf, TreeNode, leaf, branch, TreeNodes, nil, cons, has_branch, has_branch_in, push_last,
  push_under, push_under_in, leaves_of, leaves_in,
}

-- How often a text stands in a list.
unfoldable pub count : Text → List Text → ℕ
count code [] = 0
count code (c ∷ cs) = (if text_eq c code then 1 else 0) + count code cs

count-append :
    (code : Text) (xs ys : List Text) → count code (xs ++ ys) ≡ count code xs + count code ys
unfolding count
count-append code [] ys = omega arith
count-append code (x ∷ xs) ys = omega (arith, count-append code xs ys)

abbrev pub leaf_codes : List TreeLeaf → List Text
leaf_codes [] = []
leaf_codes (f ∷ fs) = f.code ∷ leaf_codes fs

leaf_codes-append : (xs ys : List TreeLeaf) → leaf_codes (xs ++ ys) ≡ leaf_codes xs ++ leaf_codes ys
leaf_codes-append [] ys = refl
leaf_codes-append (x ∷ xs) ys = rw (leaf_codes-append xs ys)

module _ (code : Text) where
  unfoldable mutual
    pub leaf_count : TreeNode → ℕ
    leaf_count (leaf f) = if text_eq f.code code then 1 else 0
    leaf_count (branch k l children) = leaf_count_in children

    pub leaf_count_in : TreeNodes → ℕ
    leaf_count_in nil = 0
    leaf_count_in (cons child rest) = leaf_count child + leaf_count_in rest

  mutual
    unfolding leaf_count leaf_count_in leaves_of leaves_in count

    pub leaf_count_lem : (n : TreeNode) → count code (leaf_codes (leaves_of n)) ≡ leaf_count n
    leaf_count_lem (leaf f) = omega arith
    leaf_count_lem (branch k l children) = leaf_count_in_lem children

    pub leaf_count_in_lem :
        (ns : TreeNodes) → count code (leaf_codes (leaves_in ns)) ≡ leaf_count_in ns
    leaf_count_in_lem nil = refl
    leaf_count_in_lem (cons child rest) =
        rw (leaf_codes-append (leaves_of child) (leaves_in rest)) (
          omega (
            arith,
            count-append code (leaf_codes (leaves_of child)) (leaf_codes (leaves_in rest)),
            leaf_count_lem child,
            leaf_count_in_lem rest,
          ))

-- The branches with a key, those below one of them left out.
module _ (key : Text) where
  unfoldable mutual
    pub hits : TreeNode → ℕ
    hits (leaf f) = 0
    hits (branch k l children) = if text_eq k key then 1 else hits_in children

    pub hits_in : TreeNodes → ℕ
    hits_in nil = 0
    hits_in (cons child rest) = hits child + hits_in rest

  mutual
    unfolding hits hits_in has_branch has_branch_in

    hits_none : (n : TreeNode) → has_branch key n ≡ false → hits n ≡ 0
    hits_none (leaf f) h = refl
    hits_none (branch k l children) h = ground (arith, hits_in_none children)

    pub hits_in_none : (ns : TreeNodes) → has_branch_in key ns ≡ false → hits_in ns ≡ 0
    hits_in_none nil h = refl
    hits_in_none (cons child rest) h = ground (arith, hits_none child, hits_in_none rest)

  mutual
    unfolding hits hits_in has_branch has_branch_in

    hits_some : (n : TreeNode) → has_branch key n ≡ true → 1 ≤ hits n
    hits_some (leaf f) h = absurd (cc)
    hits_some (branch k l children) h = ground (arith, hits_in_some children)

    pub hits_in_some : (ns : TreeNodes) → has_branch_in key ns ≡ true → 1 ≤ hits_in ns
    hits_in_some nil h = absurd (cc)
    hits_in_some (cons child rest) h = ground (arith, hits_some child, hits_in_some rest)

module _ (parent : Text) (node : TreeNode) where
  leaf_count-push_last :
      (code : Text) (ns : TreeNodes)
      → leaf_count_in code (push_last node ns) ≡ leaf_count_in code ns + leaf_count code node
  unfolding push_last leaf_count_in
  leaf_count-push_last code nil = omega arith
  leaf_count-push_last code (cons child rest) = omega (arith, leaf_count-push_last code rest)

  hits-push_last :
      (key : Text) (ns : TreeNodes)
      → hits_in key (push_last node ns) ≡ hits_in key ns + hits key node
  unfolding push_last hits_in
  hits-push_last key nil = omega arith
  hits-push_last key (cons child rest) = omega (arith, hits-push_last key rest)

  mutual
    unfolding leaf_count leaf_count_in push_under push_under_in hits hits_in

    pub leaf_count-push_under :
        (code : Text) (n : TreeNode)
        → leaf_count code (push_under parent node n)
          ≡ leaf_count code n + hits parent n * leaf_count code node
    leaf_count-push_under code (leaf f) = omega arith
    leaf_count-push_under code (branch k l children) =
        ground (arith, leaf_count-push_last code children, leaf_count-push_under_in code children)

    leaf_count-push_under_in :
        (code : Text) (ns : TreeNodes)
        → leaf_count_in code (push_under_in parent node ns)
          ≡ leaf_count_in code ns + hits_in parent ns * leaf_count code node
    leaf_count-push_under_in code nil = omega arith
    leaf_count-push_under_in code (cons child rest) =
        omega (arith, leaf_count-push_under code child, leaf_count-push_under_in code rest)

  -- A key that the node does not bring is found as often as before.
  mutual
    unfolding push_under push_under_in hits hits_in

    pub hits-push_under_other :
        (key : Text) (n : TreeNode)
        → hits key node ≡ 0
        → hits key (push_under parent node n) ≡ hits key n
    hits-push_under_other key (leaf f) h = refl
    hits-push_under_other key (branch k l children) h =
        ground (arith, hits-push_last key children, hits-push_under_other_in key children)

    hits-push_under_other_in :
        (key : Text) (ns : TreeNodes)
        → hits key node ≡ 0
        → hits_in key (push_under_in parent node ns) ≡ hits_in key ns
    hits-push_under_other_in key nil h = refl
    hits-push_under_other_in key (cons child rest) h =
        omega (arith, hits-push_under_other key child h, hits-push_under_other_in key rest h)

  -- A key that was not there is found where the parent was.
  mutual
    unfolding push_under push_under_in hits hits_in

    pub hits-push_under_new :
        (key : Text) (n : TreeNode)
        → hits key node ≡ 1
        → hits key n ≡ 0
        → hits key (push_under parent node n) ≡ hits parent n
    hits-push_under_new key (leaf f) h e = refl
    hits-push_under_new key (branch k l children) h e =
        ground (arith, hits-push_last key children, hits-push_under_new_in key children)

    hits-push_under_new_in :
        (key : Text) (ns : TreeNodes)
        → hits key node ≡ 1
        → hits_in key ns ≡ 0
        → hits_in key (push_under_in parent node ns) ≡ hits_in parent ns
    hits-push_under_new_in key nil h e = refl
    hits-push_under_new_in key (cons child rest) h e =
        ground (arith, hits-push_under_new key child, hits-push_under_new_in key rest)
