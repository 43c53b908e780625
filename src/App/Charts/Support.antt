-- ===== src/App/Charts/Support.antt =====
-- web/src/app/charts/support.ts: the largest few of a list, and the rest folded into one.
pub mod Laws
pub mod Positive
pub mod Entries
use vekst.Prelude.{
  ℕ, ◌-◌, List, [], ◌∷◌, ◌++◌, map, Option, none, some, Bool, true, false, if◌then◌else◌, leb,
  length, take, drop,
}
use vekst.Prelude.Strings.{Text}
use vekst.App.Charts.Numbers.{Numbers, sum_from}

-- sort((a, b) => key(b) - key(a)), which keeps the order of equal keys
module _ {ℓ} (n : Numbers) {A : Type ℓ} (key : A → n.Number) where
  unfoldable pub place : A → List A → List A
  place x [] = x ∷ []
  place x (y ∷ ys) =
      let rest = place x ys in if n.less (key x) (key y) then y ∷ rest else x ∷ y ∷ ys

  unfoldable pub sort : List A → List A
  unfolding place
  sort [] = []
  sort (x ∷ xs) = place x (sort xs)

module _ (n : Numbers) where
  -- A label may be `undefined`: a key that the catalogue does not have.
  pub record Sliced {ℓ} (A : Type ℓ) : Type ℓ where
    pub label : Option Text
    pub value : n.Number
    pub item : A

  pub record Other : Type 0 where
    pub label : Option Text
    pub value : n.Number

  pub record Folded {ℓ} (A : Type ℓ) : Type ℓ where
    pub kept : List (Sliced A)
    pub other : Option Other

  module _ {ℓ} {A : Type ℓ} where
    unfoldable pub fold_top_n : List (Sliced A) → ℕ → Option Text → Folded A
    unfolding sort
    fold_top_n items limit other_label =
        let sorted = sort n (λ s. s.value) items in
        if leb (length sorted) limit then record { kept = sorted; other = none } else record {
          kept = take limit sorted;
          other = some (record {
            label = other_label;
            value = sum_from n n.zero_number (map (λ s. s.value) (drop limit sorted));
          });
        }

    -- other ? [...kept, other] : kept, of which the charts read the label and the value
    abbrev pub entry : Sliced A → Other
    entry s = record { label = s.label; value = s.value }

    abbrev pub entries : List (Sliced A) → Option Other → List Other
    entries kept none = map entry kept
    entries kept (some other) = map entry kept ++ other ∷ []

    abbrev pub folded_entries : Folded A → List Other
    folded_entries f = entries f.kept f.other
