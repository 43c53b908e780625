-- ===== src/App/CategoryTree/Laws.antt =====
-- The picker offers every category, once.
use vekst.Prelude.{
  Text, ℕ, suc, ◌+◌, ◌*◌, ◌≤◌, ◌≡◌, ◌≢◌, refl, ◌∙◌, Bool, true, false, ◌==◌, List, [], ◌∷◌, ◌++◌,
  Option, none, some, if◌then◌else◌, arith, Bool-cases, inl, inr, take, length,
}
use vekst.Prelude.Strings.{text_eq, text_eq_iff, text_eq_refl}
use vekst.Locale.{Locale}
use vekst.App.CategoryName.{category_name}
use vekst.App.CategoryTree.{
  Category, TreeLeaf, TreeNode, leaf, branch, TreeNodes, nil, cons, has_branch_in, push_under,
  below_root, branch_label, or_raw, printed, ensure_branch, segments_of, walk, ancestors_of,
  add_category, add_all, fold_child, fold_children, fold, fold_sections, separator, empty_root,
  build_category_tree, leaves_of,
}
use vekst.App.CategoryTree.Counts.{
  count, leaf_codes, leaf_count, leaf_count_in, leaf_count_in_lem, hits, hits_in, hits_in_none,
  hits_in_some, leaf_count-push_under, hits-push_under_other, hits-push_under_new,
}

-- The tree while it is built: the root has the empty key, and no key is found twice.
record IsTree (root : TreeNode) : Type 0 where
  children : TreeNodes
  shape : root ≡ branch [] [] children
  unique : (key : Text) → hits key root ≤ 1

empty_root-IsTree : IsTree empty_root
unfolding hits
empty_root-IsTree = record { children = nil; shape = refl; unique = λ key. ground arith }

leaf_count-below_root :
    (code : Text) (root : TreeNode)
    → IsTree root
    → leaf_count_in code (below_root root) ≡ leaf_count code root
unfolding leaf_count
leaf_count-below_root code root t = rw t.shape

text_eq-nil : (key : Text) → key ≢ [] → text_eq [] key ≡ false
unfolding text_eq
text_eq-nil [] h = absurd (h refl)
text_eq-nil (c ∷ k) h = refl

hits_root : (root : TreeNode) → IsTree root → hits [] root ≡ 1
unfolding hits text_eq
hits_root root t = rw t.shape

hits_below :
    (key : Text) (root : TreeNode)
    → IsTree root
    → key ≢ []
    → hits key root ≡ hits_in key (below_root root)
unfolding hits
hits_below key root t h = rw t.shape (rw (text_eq-nil key h))

push_under-shape :
    (parent : Text) (node root : TreeNode)
    → IsTree root
    → (children : TreeNodes) × (push_under parent node root ≡ branch [] [] children)
unfolding push_under
push_under-shape parent node root t =
    rw t.shape
      (elim (Bool-cases (text_eq [] parent)) [ inl e ↦ rw e (_, refl) | inr e ↦ rw e (_, refl) ])

-- A leaf under a branch that is there is one leaf more, and no other change to a count.
push_leaf-IsTree :
    (parent : Text) (f : TreeLeaf) (root : TreeNode)
    → IsTree root
    → IsTree (push_under parent (leaf f) root)
push_leaf-IsTree parent f root t =
    let (children, shape) = push_under-shape parent (leaf f) root t in
    record {
      children = children;
      shape = shape;
      unique = λ key. omega (
        arith,
        hits-push_under_other parent (leaf f) key root (unfold hits in refl),
        t.unique key,
      );
    }

hits_new_branch : (k l key : Text) → hits key (branch k l nil) ≡ (if text_eq k key then 1 else 0)
unfolding hits hits_in
hits_new_branch k l key = refl

-- What a step of the walk gives: a tree in which the key is found, with the leaves it had.
record Grows (key : Text) (root root' : TreeNode) : Type 0 where
  tree : IsTree root'
  found : hits key root' ≡ 1
  leaves : (code : Text) → leaf_count code root' ≡ leaf_count code root

ensure_branch_old :
    (parent key label : Text) (root : TreeNode)
    → IsTree root
    → key ≢ []
    → has_branch_in key (below_root root) ≡ true
    → Grows key root (ensure_branch parent key label root)
unfolding ensure_branch
ensure_branch_old parent key label root t h e = rw e (record {
  tree = t;
  found =
      omega (arith, hits_below key root t h, hits_in_some key (below_root root) e, t.unique key);
  leaves = λ code. refl;
})

ensure_branch_new :
    (parent key label : Text) (root : TreeNode)
    → IsTree root
    → hits parent root ≡ 1
    → key ≢ []
    → has_branch_in key (below_root root) ≡ false
    → Grows key root (ensure_branch parent key label root)
unfolding ensure_branch leaf_count
ensure_branch_new parent key label root t p h e =
    let node : TreeNode = branch key label nil in
    let absent : hits key root ≡ 0 =
      hits_below key root t h ∙ hits_in_none key (below_root root) e in
    let self : hits key node ≡ 1 = hits_new_branch key label key ∙ rw (text_eq_refl key) in
    let now : hits key (push_under parent node root) ≡ 1 =
      hits-push_under_new parent node key root self absent ∙ p in
    let (children, shape) = push_under-shape parent node root t in
    rw e (record {
      tree = record {
        children = children;
        shape = shape;
        unique = λ other. elim (Bool-cases (text_eq key other)) [
          | inl same ↦ rw (← (text_eq_iff key other).0 same) (omega arith)
          | inr differs ↦
              let none_new : hits other node ≡ 0 = hits_new_branch key label other ∙ rw differs in
              omega (arith, hits-push_under_other parent node other root none_new, t.unique other)
        ];
      };
      found = now;
      leaves = λ code. omega (arith, leaf_count-push_under parent node code root);
    })

ensure_branch-Grows :
    (parent key label : Text) (root : TreeNode)
    → IsTree root
    → hits parent root ≡ 1
    → key ≢ []
    → Grows key root (ensure_branch parent key label root)
ensure_branch-Grows parent key label root t p h =
    elim (Bool-cases (has_branch_in key (below_root root))) [
      | inl e ↦ ensure_branch_old parent key label root t h e
      | inr e ↦ ensure_branch_new parent key label root t p h e
    ]

key_ne-nil : (parent rest : Text) → parent ++ b'/' ∷ rest ≢ []
key_ne-nil [] rest h = cc
key_ne-nil (c ∷ parent) rest h = cc

walk-Grows :
    (aligned : Bool) (code : Text) (locale : Locale) (i : ℕ) (ancestors : List Text) (parent : Text)
    (trail : List Text) (root : TreeNode)
    → IsTree root
    → hits parent root ≡ 1
    → Grows
        (walk aligned code locale i ancestors parent trail root).1
        root
        (walk aligned code locale i ancestors parent trail root).0
unfolding walk
walk-Grows aligned code locale i [] parent trail root t p = record {
  tree = t;
  found = p;
  leaves = λ c. refl;
}
walk-Grows aligned code locale i (raw ∷ ancestors) parent trail root t p =
    let cut : Option Text = if aligned then some (take (2 * (i + 1)) code) else none in
    let label = branch_label cut i raw locale in
    let key = parent ++ b'/' ∷ or_raw cut raw in
    let step = ensure_branch-Grows parent key label root t p (key_ne-nil parent (or_raw cut raw)) in
    let rest =
      walk-Grows aligned code locale (suc i) ancestors key (trail ++ label ∷ [])
        (ensure_branch parent key label root) step.tree step.found in
    record { tree = rest.tree; found = rest.found; leaves = λ c. rest.leaves c ∙ step.leaves c }

add_category-Adds :
    (locale : Locale) (root : TreeNode) (c : Category)
    → IsTree root
    → IsTree (add_category locale root c)
      × ((code : Text)
          → leaf_count code (add_category locale root c)
            ≡ leaf_count code root + (if text_eq c.code code then 1 else 0))
unfolding add_category
add_category-Adds locale root c t =
    let segments = segments_of c.path in
    let aligned = length c.code == 2 * length segments in
    let w = walk aligned c.code locale 0 (ancestors_of segments) [] [] root in
    let grown =
      walk-Grows aligned c.code locale 0 (ancestors_of segments) [] [] root t (hits_root root t) in
    let name = printed (category_name c.code c.label locale) in
    let f : TreeLeaf = record {
      key = w.1 ++ b'/' ∷ c.code;
      code = c.code;
      name = name;
      label = name;
      trail = w.2;
    } in
    (
      push_leaf-IsTree w.1 f w.0 grown.tree,
      λ code.
          leaf_count-push_under w.1 (leaf f) code w.0
          ∙ rw (grown.found) (unfold leaf_count in omega (arith, grown.leaves code)),
    )

abbrev pub category_codes : List Category → List Text
category_codes [] = []
category_codes (c ∷ cs) = c.code ∷ category_codes cs

add_all-Adds :
    (locale : Locale) (root : TreeNode) (cs : List Category)
    → IsTree root
    → IsTree (add_all locale root cs)
      × ((code : Text)
          → leaf_count code (add_all locale root cs)
            ≡ leaf_count code root + count code (category_codes cs))
unfolding add_all count
add_all-Adds locale root [] t = (t, λ code. omega arith)
add_all-Adds locale root (c ∷ cs) t =
    let (t', step) = add_category-Adds locale root c t in
    let (t'', rest) = add_all-Adds locale (add_category locale root c) cs t' in
    (t'', λ code. omega (arith, step code, rest code))

module _ (code : Text) where
  mutual
    unfolding fold_child fold_children leaf_count leaf_count_in

    leaf_count-fold_child :
        (prefix : Text) (n : TreeNode) → leaf_count code (fold_child prefix n) ≡ leaf_count code n
    leaf_count-fold_child prefix (leaf f) = refl
    leaf_count-fold_child prefix (branch k l nil) = refl
    leaf_count-fold_child prefix (branch k l (cons only nil)) =
        omega (arith, leaf_count-fold_child (prefix ++ (l ++ separator)) only)
    leaf_count-fold_child prefix (branch k l (cons a (cons b rest))) = omega (
      arith,
      leaf_count-fold_child [] a,
      leaf_count-fold_child [] b,
      leaf_count-fold_children rest,
    )

    leaf_count-fold_children :
        (ns : TreeNodes) → leaf_count_in code (fold_children ns) ≡ leaf_count_in code ns
    leaf_count-fold_children nil = refl
    leaf_count-fold_children (cons child rest) =
        omega (arith, leaf_count-fold_child [] child, leaf_count-fold_children rest)

  leaf_count-fold_sections :
      (ns : TreeNodes) → leaf_count_in code (fold_sections ns) ≡ leaf_count_in code ns
  unfolding fold_sections fold leaf_count leaf_count_in
  leaf_count-fold_sections nil = refl
  leaf_count-fold_sections (cons (leaf f) rest) = omega (arith, leaf_count-fold_sections rest)
  leaf_count-fold_sections (cons (branch k l children) rest) =
      omega (arith, leaf_count-fold_children children, leaf_count-fold_sections rest)

-- No category is lost and none is offered twice: whatever the paths, each code is the code of as many
-- leaves of the picker's tree as of categories.
pub count-build_category_tree :
    (code : Text) (categories : List Category) (locale : Locale)
    → count code (leaf_codes (leaves_of (build_category_tree categories locale)))
      ≡ count code (category_codes categories)
unfolding build_category_tree leaves_of
count-build_category_tree code categories locale =
    let (t, adds) = add_all-Adds locale empty_root categories empty_root-IsTree in
    leaf_count_in_lem code (fold_sections (below_root (add_all locale empty_root categories)))
    ∙ leaf_count-fold_sections code (below_root (add_all locale empty_root categories))
    ∙ leaf_count-below_root code (add_all locale empty_root categories) t
    ∙ adds code
    ∙ (unfold leaf_count in omega arith)
