-- ===== src/Examples/Names.antt =====
-- Names, messages and the picker's tree at concrete inputs.
use vekst.Prelude.{Text, codes, ◌≡◌, ◌≢◌, ◌↔◌, refl, List, [], ◌∷◌, none, some, true, sym, ◌∙◌}
use vekst.Prelude.Strings.{text_eq, trim, to_lower_case}
use vekst.Locale.{en, ru}
use vekst.I18n.{find_message, t}
use vekst.I18n.Laws.{t-locale}
use vekst.App.LineName.{
  has, named_lines, line_name, line_abbreviation, cell_name, inherited, same, single_spaced,
}
use vekst.App.LineName.Laws.{IsNameOf, names_total, cell_name_undefined_iff}
use vekst.App.CategoryName.{named_categories, category_name, branches, branch_name}
use vekst.App.CategoryTree.{
  Category, TreeNode, TreeNodes, leaf, branch, nil, cons, build_category_tree, leaves_of, leaves_in,
  fold_sections, open_path,
}
use vekst.App.CategoryTree.Counts.{count, leaf_codes}
use vekst.App.CategoryTree.Laws.{category_codes, count-build_category_tree}
use vekst.App.CategoryTree.Folding.{
  IsFolded, identities, fold_sections_lem, IsOpened, open_path-IsOpened,
}

t-locale_example : (t (codes "nav.home") en ≡ none) ↔ (t (codes "nav.home") ru ≡ none)
t-locale_example = t-locale (codes "nav.home")

names_total_example :
    ((s : Text) × (line_name (codes "0402") (codes "Dept") ru ≡ some s)
      × IsNameOf (codes "line.") named_lines (codes "0402") (codes "Dept") ru s)
    × ((s : Text) × (category_name (codes "0402") (codes "Dept") ru ≡ some s)
        × IsNameOf (codes "category.") named_categories (codes "0402") (codes "Dept") ru s)
    × ((s : Text) × (branch_name (codes "0402") (codes "Dept") ru ≡ some s)
        × IsNameOf (codes "categoryBranch.") branches (codes "0402") (codes "Dept") ru s)
names_total_example = names_total (codes "0402") (codes "Dept") ru

cell_name_undefined_iff_example :
    (cell_name (codes "toString") (codes "Sales") en ≡ none)
    ↔ (has inherited (codes "toString") ≡ true)
cell_name_undefined_iff_example = cell_name_undefined_iff (codes "toString") (codes "Sales") en

abbreviated : line_abbreviation (codes "93") (codes "CM") en ≡ codes "CM"
unfolding line_abbreviation line_name same has t text_eq single_spaced trim to_lower_case
    find_message
abbreviated = refl

an_abbreviation : line_abbreviation (codes "93") (codes "CM") en ≢ []
an_abbreviation e = let q : codes "CM" ≡ [] = sym abbreviated ∙ e in absurd (cc q)

abbrev salary : Text → Text → Category
salary code path = record { id = code; code = code; label = codes "Salary"; path = path }

abbrev three : List Category
three =
    salary (codes "040201") (codes "Operating / Finance / Salary")
    ∷ salary (codes "040301") (codes "Operating / Sales / Salary")
    ∷ salary (codes "0101") (codes "Net sales")
    ∷ []

count-build_category_tree_example :
    count (codes "040301") (leaf_codes (leaves_of (build_category_tree three ru)))
    ≡ count (codes "040301") (category_codes three)
count-build_category_tree_example = count-build_category_tree (codes "040301") three ru

abbrev wages : TreeNode
wages = leaf (record {
  key = codes "w";
  code = codes "040201";
  name = codes "Salary";
  label = codes "Salary";
  trail = codes "Operating" ∷ codes "Finance" ∷ [];
})

-- A section with one department, which has one leaf.
abbrev chain : TreeNodes
chain =
    cons
      (branch (codes "Operating") (codes "Operating")
        (cons (branch (codes "Finance") (codes "Finance") (cons wages nil)) nil))
      nil

fold_sections_lem_example :
    IsFolded (fold_sections chain)
    × (identities (leaves_in (fold_sections chain)) ≡ identities (leaves_in chain))
fold_sections_lem_example = fold_sections_lem chain

abbrev keys : List Text
keys = codes "Operating" ∷ codes "Gone" ∷ []

open_path-IsOpened_example :
    IsOpened (branch [] [] chain) keys (open_path (branch [] [] chain) keys)
open_path-IsOpened_example = open_path-IsOpened (branch [] [] chain) keys
