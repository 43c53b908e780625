-- ===== src/App/CategoryName.antt =====
-- web/src/app/categoryName.ts: the names of leaf categories and of the branches above them.
use vekst.Prelude.{Text, codes, List, [], ◌∷◌, ◌++◌, Option, some, if◌then◌else◌}
use vekst.Locale.{Locale}
use vekst.I18n.{t}
use vekst.App.LineName.{has}

-- NAMED
abbrev pub named_categories : List Text
named_categories =
    codes "0101"
    ∷ codes "02"
    ∷ codes "030101"
    ∷ codes "0401010101"
    ∷ codes "0401010201"
    ∷ codes "0401010202"
    ∷ codes "0401010203"
    ∷ codes "0401010204"
    ∷ codes "0401010205"
    ∷ codes "0401010206"
    ∷ codes "0401020101"
    ∷ codes "0401020201"
    ∷ codes "0401020202"
    ∷ codes "0401020203"
    ∷ codes "0401020204"
    ∷ codes "0401020205"
    ∷ codes "0401020206"
    ∷ codes "0401020207"
    ∷ codes "0401020208"
    ∷ codes "0401020209"
    ∷ codes "0401020210"
    ∷ codes "0401020211"
    ∷ codes "0401020212"
    ∷ codes "0401030101"
    ∷ codes "0401040101"
    ∷ codes "0401040102"
    ∷ codes "0401040103"
    ∷ codes "0401040104"
    ∷ codes "0401040105"
    ∷ codes "0401050101"
    ∷ codes "0401050102"
    ∷ codes "0402010101"
    ∷ codes "0402010201"
    ∷ codes "0402010202"
    ∷ codes "0402010203"
    ∷ codes "0402010204"
    ∷ codes "0402010205"
    ∷ codes "0402010206"
    ∷ codes "0402010207"
    ∷ codes "0402020101"
    ∷ codes "0402020201"
    ∷ codes "0402020202"
    ∷ codes "0403"
    ∷ codes "0404"
    ∷ codes "0405010101"
    ∷ codes "0405010102"
    ∷ codes "0405010201"
    ∷ codes "0405010202"
    ∷ codes "0405010203"
    ∷ codes "0406"
    ∷ codes "050101"
    ∷ codes "050102"
    ∷ codes "05010301"
    ∷ codes "05010302"
    ∷ codes "05010303"
    ∷ codes "05010304"
    ∷ codes "05010305"
    ∷ codes "050104"
    ∷ codes "050201"
    ∷ codes "050202"
    ∷ codes "060101"
    ∷ codes "060102"
    ∷ codes "060201"
    ∷ codes "07"
    ∷ codes "08"
    ∷ codes "09"
    ∷ []

unfoldable pub category_name : Text → Text → Locale → Option Text
category_name code fallback locale =
    if has named_categories code then t (codes "category." ++ code) locale else some fallback

-- BRANCHES
abbrev pub branches : List Text
branches =
    codes "0301"
    ∷ codes "0401"
    ∷ codes "040101"
    ∷ codes "04010101"
    ∷ codes "04010102"
    ∷ codes "040102"
    ∷ codes "04010201"
    ∷ codes "04010202"
    ∷ codes "040103"
    ∷ codes "04010301"
    ∷ codes "040104"
    ∷ codes "04010401"
    ∷ codes "040105"
    ∷ codes "04010501"
    ∷ codes "0402"
    ∷ codes "040201"
    ∷ codes "04020101"
    ∷ codes "04020102"
    ∷ codes "040202"
    ∷ codes "04020201"
    ∷ codes "04020202"
    ∷ codes "0405"
    ∷ codes "040501"
    ∷ codes "04050101"
    ∷ codes "04050102"
    ∷ codes "0501"
    ∷ codes "050103"
    ∷ codes "0502"
    ∷ codes "0601"
    ∷ codes "0602"
    ∷ []

unfoldable pub branch_name : Text → Text → Locale → Option Text
branch_name code fallback locale =
    if has branches code then t (codes "categoryBranch." ++ code) locale else some fallback
