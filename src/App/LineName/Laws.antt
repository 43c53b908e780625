-- ===== src/App/LineName/Laws.antt =====
-- Every name that the client promises for a code is in both catalogues.
use vekst.Prelude.{
  Text, codes, ◌≡◌, ◌≢◌, ◌↔◌, refl, Bool, true, false, not, ◌&&◌, List, [], ◌∷◌, ◌++◌, Option, none,
  some, arith, ◌⊎◌, inl, inr, Bool-cases, Option-cases,
}
use vekst.Prelude.Strings.{text_eq, text_eq_iff}
use vekst.Locale.{Locale, en, ru}
use vekst.I18n.{t}
use vekst.App.LineName.{
  has, named_lines, line_name, line_abbreviation, cell_name, bucket_keys, bucket_key, inherited,
}
use vekst.App.CategoryName.{named_categories, category_name, branches, branch_name}

abbrev is_some : Option Text → Bool
is_some none = false
is_some (some _) = true

all_named : Text → List Text → Locale → Bool
all_named prefix [] locale = true
all_named prefix (c ∷ cs) locale = is_some (t (prefix ++ c) locale) && all_named prefix cs locale

all_named_sound :
    (prefix : Text) (cs : List Text) (locale : Locale) (code : Text)
    → all_named prefix cs locale ≡ true
    → has cs code ≡ true
    → (s : Text) × (t (prefix ++ code) locale ≡ some s)
unfolding all_named has
all_named_sound prefix [] locale code h m = absurd (cc)
all_named_sound prefix (c ∷ cs) locale code h m = elim (Bool-cases (text_eq c code)) [
  | inl e ↦ rw (← (text_eq_iff c code).0 e) (elim (Option-cases (t (prefix ++ c) locale)) [
    | inl missing ↦ absurd (ground arith)
    | inr found ↦ found
  ])
  | inr e ↦ all_named_sound prefix cs locale code (ground arith) (ground arith)
]

lines_named : (locale : Locale) → all_named (codes "line.") named_lines locale ≡ true
unfolding all_named t
lines_named en = refl
lines_named ru = refl

categories_named : (locale : Locale) → all_named (codes "category.") named_categories locale ≡ true
unfolding all_named t
categories_named en = refl
categories_named ru = refl

branches_named : (locale : Locale) → all_named (codes "categoryBranch.") branches locale ≡ true
unfolding all_named t
branches_named en = refl
branches_named ru = refl

-- A name that is looked up for the codes of a table, and is the wire's own for the others.
abbrev pub IsNameOf : Text → List Text → Text → Text → Locale → Text → Type 0
IsNameOf prefix table code fallback locale s =
    ((has table code ≡ true) × (t (prefix ++ code) locale ≡ some s))
    ⊎ ((has table code ≡ false) × (s ≡ fallback))

pub line_name_total :
    (code fallback : Text) (locale : Locale)
    → (s : Text) × (line_name code fallback locale ≡ some s)
      × IsNameOf (codes "line.") named_lines code fallback locale s
unfolding line_name
line_name_total code fallback locale = elim (Bool-cases (has named_lines code)) [
  | inl h ↦
      let (s, e) = all_named_sound (codes "line.") named_lines locale code (lines_named locale) h in
      (s, rw h e, inl (h, e))
  | inr h ↦ (fallback, rw h, inr (h, refl))
]

category_name_total :
    (code fallback : Text) (locale : Locale)
    → (s : Text) × (category_name code fallback locale ≡ some s)
      × IsNameOf (codes "category.") named_categories code fallback locale s
unfolding category_name
category_name_total code fallback locale = elim (Bool-cases (has named_categories code)) [
  | inl h ↦
      let (s, e) =
        all_named_sound (codes "category.") named_categories locale code (categories_named locale)
          h in
      (s, rw h e, inl (h, e))
  | inr h ↦ (fallback, rw h, inr (h, refl))
]

branch_name_total :
    (code fallback : Text) (locale : Locale)
    → (s : Text) × (branch_name code fallback locale ≡ some s)
      × IsNameOf (codes "categoryBranch.") branches code fallback locale s
unfolding branch_name
branch_name_total code fallback locale = elim (Bool-cases (has branches code)) [
  | inl h ↦
      let (s, e) =
        all_named_sound (codes "categoryBranch.") branches locale code (branches_named locale) h in
      (s, rw h e, inl (h, e))
  | inr h ↦ (fallback, rw h, inr (h, refl))
]

-- A line, a leaf category and a branch always have a name: the catalogue's for each code of the kind's own
-- table, in both locales, and the wire's label for any other code.
pub names_total :
    (code fallback : Text) (locale : Locale)
    → ((s : Text) × (line_name code fallback locale ≡ some s)
        × IsNameOf (codes "line.") named_lines code fallback locale s)
      × ((s : Text) × (category_name code fallback locale ≡ some s)
          × IsNameOf (codes "category.") named_categories code fallback locale s)
      × ((s : Text) × (branch_name code fallback locale ≡ some s)
          × IsNameOf (codes "categoryBranch.") branches code fallback locale s)
names_total code fallback locale = (
  line_name_total code fallback locale,
  category_name_total code fallback locale,
  branch_name_total code fallback locale,
)

buckets_named : List (Text × Text) → Locale → Bool
buckets_named [] locale = true
buckets_named ((k, v) ∷ rest) locale =
    (is_some (t v locale) && not (has inherited k)) && buckets_named rest locale

buckets_named_check : (locale : Locale) → buckets_named bucket_keys locale ≡ true
unfolding buckets_named t has
buckets_named_check en = refl
buckets_named_check ru = refl

buckets_named_sound :
    (table : List (Text × Text)) (locale : Locale) (id : Text) {key : Text}
    → buckets_named table locale ≡ true
    → bucket_key id table ≡ some key
    → (has inherited id ≡ false) × ((s : Text) × (t key locale ≡ some s))
unfolding buckets_named bucket_key
buckets_named_sound [] locale id h e = absurd (cc)
buckets_named_sound ((k, v) ∷ rest) locale id {key} h e = elim (Bool-cases (text_eq k id)) [
  | inl m ↦
      let same_key : v ≡ key = ground arith in
      rw (← (text_eq_iff k id).0 m, ← same_key)
        (
          ground arith,
          elim (Option-cases (t v locale)) [
            | inl missing ↦ absurd (ground arith)
            | inr found ↦ found
          ],
        )
  | inr m ↦ buckets_named_sound rest locale id (ground arith) (ground arith)
]

-- The title of a drill-down is undefined exactly for an id that is a property which every object
-- inherits, such as `toString`.
pub cell_name_undefined_iff :
    (id fallback : Text) (locale : Locale)
    → (cell_name id fallback locale ≡ none) ↔ (has inherited id ≡ true)
unfolding cell_name
cell_name_undefined_iff id fallback locale = elim (Option-cases (bucket_key id bucket_keys)) [
  | inl other ↦
      let (s, e, _) = line_name_total id fallback locale in
      ((λ h. ground (arith, other, e)), (λ h. ground (arith, other)))
  | inr (key, e) ↦
      let (own, (s, found)) =
        buckets_named_sound bucket_keys locale id (buckets_named_check locale) e in
      ((λ h. ground (arith, e, found)), (λ h. cc own))
]

-- An abbreviation is printed beside a name only for a code of the table, and then it is the wire's
-- label.
pub line_abbreviation_shown :
    (code label : Text) (locale : Locale)
    → line_abbreviation code label locale ≢ []
    → (has named_lines code ≡ true) × (line_abbreviation code label locale ≡ label)
unfolding line_abbreviation
line_abbreviation_shown code label locale h = ground arith
