-- ===== src/App/ReviewScreen/Options.antt =====
-- The leaves among the options of the review screen are leaves of its tree.
use vekst.Prelude.{
  Text, ℕ, zero, suc, ◌≤◌, ◌≡◌, sym, ap, ◌∙◌, ◌⊎◌, inl, inr, List, [], ◌∷◌, some, true, false,
  arith, get_elem?, Bool-cases, Option-cases,
}
use vekst.Prelude.Strings.{text_eq, text_eq_iff}
use vekst.App.CategoryTree.{
  TreeLeaf, TreeNode, leaf, branch, TreeNodes, nil, cons, below_root, leaves_of, child_branch,
  open_path,
}
use vekst.App.CategoryTree.Counts.{count, leaf_codes, leaf_count, leaf_count_in, leaf_count_lem}
use vekst.App.CategoryTree.Folding.{open_path-none, open_path-some}
use vekst.App.ReviewScreen.{matches, is_match, nodes_of, last_or, options_for}

module _ (code : Text) where
  leaf_here : (f : TreeLeaf) → f.code ≡ code → 1 ≤ leaf_count code (leaf f)
  unfolding leaf_count
  leaf_here f e = rw ((text_eq_iff f.code code).1 e) (omega arith)

  -- A leaf among the children of a branch is one of its leaves.
  child_counted :
      (ns : TreeNodes) (n : ℕ) (f : TreeLeaf)
      → f.code ≡ code
      → get_elem? (nodes_of ns) n ≡ some (leaf f)
      → 1 ≤ leaf_count_in code ns
  unfolding leaf_count_in
  child_counted nil n f e h = absurd (cc h)
  child_counted (cons child rest) zero f e h =
      let same : child ≡ leaf f = ground arith in rw same (omega (arith, leaf_here f e))
  child_counted (cons child rest) (suc n) f e h = omega (arith, child_counted rest n f e h)

  child_branch-count :
      (key : Text) (ns : TreeNodes) (n : TreeNode)
      → child_branch key ns ≡ some n
      → leaf_count code n ≤ leaf_count_in code ns
  unfolding child_branch leaf_count_in
  child_branch-count key nil n h = absurd (cc h)
  child_branch-count key (cons (leaf f) rest) n h = omega (arith, child_branch-count key rest n h)
  child_branch-count key (cons (branch k l children) rest) n h = elim (Bool-cases (text_eq k key)) [
    | inl e ↦ let same : branch k l children ≡ n = ground arith in rw (sym same) (omega arith)
    | inr e ↦ omega (arith, child_branch-count key rest n (ground arith))
  ]

  below_count : (cur : TreeNode) → leaf_count_in code (below_root cur) ≤ leaf_count code cur
  unfolding leaf_count leaf_count_in
  below_count (leaf f) = omega arith
  below_count (branch k l children) = omega arith

  -- What is opened last has no leaf that the tree has not.
  opened_count :
      (cur : TreeNode) (keys : List Text)
      → leaf_count code (last_or cur (open_path cur keys)) ≤ leaf_count code cur
  opened_count cur [] = unfold open_path in omega arith
  opened_count cur (key ∷ keys) = elim (Option-cases (child_branch key (below_root cur))) [
    | inl e ↦ rw (open_path-none cur key keys e) (omega arith)
    | inr (next, e) ↦ rw (open_path-some cur key keys e) (
        omega (
          arith,
          opened_count next keys,
          child_branch-count key (below_root cur) next e,
          below_count cur,
        ))
  ]

  head_or_later :
      (l f : TreeLeaf) (ms : List TreeNode) (n : ℕ)
      → f.code ≡ code
      → get_elem? (leaf l ∷ ms) n ≡ some (leaf f)
      → (l.code ≡ code) ⊎ ((m : ℕ) × (get_elem? ms m ≡ some (leaf f)))
  head_or_later l f ms zero e h = let same : l ≡ f = ground arith in inl (ap (λ x. x.code) same ∙ e)
  head_or_later l f ms (suc n) e h = inr (n, h)

  matches-match :
      (needle : Text) (l : TreeLeaf) (ls : List TreeLeaf)
      → is_match needle l ≡ true
      → matches needle (l ∷ ls) ≡ leaf l ∷ matches needle ls
  unfolding matches
  matches-match needle l ls e = rw e

  matches-other :
      (needle : Text) (l : TreeLeaf) (ls : List TreeLeaf)
      → is_match needle l ≡ false
      → matches needle (l ∷ ls) ≡ matches needle ls
  unfolding matches
  matches-other needle l ls e = rw e

  no_match : (needle : Text) (n : ℕ) {x : TreeNode} → get_elem? (matches needle []) n ≡ some x → ⊥
  unfolding matches
  no_match needle n h = cc h

  match_counted :
      (needle : Text) (ls : List TreeLeaf) (n : ℕ) (f : TreeLeaf)
      → f.code ≡ code
      → get_elem? (matches needle ls) n ≡ some (leaf f)
      → 1 ≤ count code (leaf_codes ls)
  unfolding count
  match_counted needle [] n f e h = absurd (no_match needle n h)
  match_counted needle (l ∷ ls) n f e h = elim (Bool-cases (is_match needle l)) [
    | inr other ↦
        let h' = ap (λ ms. get_elem? ms n) (sym (matches-other needle l ls other)) ∙ h in
        omega (arith, match_counted needle ls n f e h')
    | inl hit ↦
        let h' = ap (λ ms. get_elem? ms n) (sym (matches-match needle l ls hit)) ∙ h in
        elim (head_or_later l f (matches needle ls) n e h') [
          | inl same ↦ rw ((text_eq_iff l.code code).1 same) (omega arith)
          | inr (m, later) ↦ omega (arith, match_counted needle ls m f e later)
        ]
  ]

  pub option_counted :
      (needle : Text) (tree : TreeNode) (keys : List Text) (n : ℕ) (f : TreeLeaf)
      → f.code ≡ code
      → get_elem? (options_for needle tree keys) n ≡ some (leaf f)
      → 1 ≤ count code (leaf_codes (leaves_of tree))
  option_counted [] tree keys n f e h =
      let last = last_or tree (open_path tree keys) in
      omega (
        arith,
        leaf_count_lem code tree,
        opened_count tree keys,
        below_count last,
        child_counted (below_root last) n f e h,
      )
  option_counted (c ∷ needle) tree keys n f e h =
      match_counted (c ∷ needle) (leaves_of tree) n f e h
