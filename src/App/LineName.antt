-- ===== src/App/LineName.antt =====
-- web/src/app/lineName.ts: the name of a line of the report, of its abbreviation and of a bucket.
pub mod Laws
use vekst.Prelude.{
  Text, codes, ℕ, List, [], ◌∷◌, ◌++◌, map, Option, none, some, Bool, true, false, ◌==◌, ◌||◌,
  if◌then◌else◌,
}
use vekst.Prelude.Strings.{text_eq, is_space, trim, to_lower_case}
use vekst.Locale.{Locale}
use vekst.I18n.{t}

-- set.has(code)
unfoldable pub has : List Text → Text → Bool
unfolding text_eq
has [] code = false
has (c ∷ cs) code = text_eq c code || has cs code

-- NAMED
abbrev pub named_lines : List Text
named_lines =
    codes "01"
    ∷ codes "02"
    ∷ codes "03"
    ∷ codes "04"
    ∷ codes "05"
    ∷ codes "06"
    ∷ codes "07"
    ∷ codes "08"
    ∷ codes "09"
    ∷ codes "91"
    ∷ codes "92"
    ∷ codes "93"
    ∷ codes "94"
    ∷ codes "95"
    ∷ []

-- `none` is `undefined`: the key is cast to `MessageKey`.
unfoldable pub line_name : Text → Text → Locale → Option Text
line_name code fallback locale =
    if has named_lines code then t (codes "line." ++ code) locale else some fallback

-- .replace(/\s+/g, " ")
unfoldable pub single_spaced : Bool → Text → Text
unfolding is_space
single_spaced spaced [] = []
single_spaced true (c ∷ s) = if is_space c then single_spaced true s else c ∷ single_spaced false s
single_spaced false (c ∷ s) =
    if is_space c then b' ' ∷ single_spaced true s else c ∷ single_spaced false s

abbrev flat : Text → Text
flat s = trim (single_spaced false (to_lower_case s))

unfoldable pub same : Text → Option Text → Bool
unfolding text_eq single_spaced trim to_lower_case
same a none = false
same a (some b) = text_eq (flat a) (flat b)

unfoldable pub line_abbreviation : Text → Text → Locale → Text
unfolding same
line_abbreviation code label locale =
    if has named_lines code
    then (if same label (line_name code label locale) then [] else label)
    else []

pub data BucketKind : Type 0 where
  unclassified non_pnl unallocated other_basis : BucketKind

abbrev pub bucket_id : BucketKind → Text
bucket_id unclassified = codes "unclassified"
bucket_id non_pnl = codes "non_pnl"
bucket_id unallocated = codes "unallocated"
bucket_id other_basis = codes "other_basis"

-- BUCKET_KEY
abbrev pub bucket_keys : List (Text × Text)
bucket_keys =
    (codes "unclassified", codes "report.bucket.unclassified")
    ∷ (codes "non_pnl", codes "report.bucket.non_pnl")
    ∷ (codes "unallocated", codes "report.bucket.unallocated")
    ∷ (codes "other_basis", codes "report.bucket.other_basis")
    ∷ []

-- What an object literal has beside its own keys, and `in` answers for.
abbrev pub inherited : List Text
inherited =
    codes "constructor"
    ∷ codes "__defineGetter__"
    ∷ codes "__defineSetter__"
    ∷ codes "hasOwnProperty"
    ∷ codes "__lookupGetter__"
    ∷ codes "__lookupSetter__"
    ∷ codes "isPrototypeOf"
    ∷ codes "propertyIsEnumerable"
    ∷ codes "toString"
    ∷ codes "valueOf"
    ∷ codes "__proto__"
    ∷ codes "toLocaleString"
    ∷ []

unfoldable pub bucket_key : Text → List (Text × Text) → Option Text
unfolding text_eq
bucket_key id [] = none
bucket_key id ((k, v) ∷ rest) = if text_eq k id then some v else bucket_key id rest

-- An inherited property is a key of no message.
unfoldable pub cell_name : Text → Text → Locale → Option Text
cell_name id fallback locale = elim (bucket_key id bucket_keys) [
  | some key ↦ t key locale
  | none ↦ if has inherited id then none else line_name id fallback locale
]
