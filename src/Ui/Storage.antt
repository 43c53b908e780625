-- ===== src/Ui/Storage.antt =====
-- localStorage as web/src/ui uses it: reading and writing can each be refused by the browser.
use vekst.Prelude.{
  Text, List, [], ◌∷◌, Option, none, some, Bool, true, false, if◌then◌else◌, ◌≡◌, refl, ◌∙◌, arith,
}
use vekst.Prelude.Strings.{text_eq, text_eq_iff, text_eq_refl}

pub record Storage : Type 0 where
  pub readable : Bool
  pub writable : Bool
  pub items : List (Text × Text)

unfoldable pub lookup : Text → List (Text × Text) → Option Text
unfolding text_eq
lookup key [] = none
lookup key ((k, v) ∷ rest) = if text_eq k key then some v else lookup key rest

unfoldable pub insert : Text → Text → List (Text × Text) → List (Text × Text)
unfolding text_eq
insert key value [] = (key, value) ∷ []
insert key value ((k, v) ∷ rest) =
    if text_eq k key then (key, value) ∷ rest else (k, v) ∷ insert key value rest

-- `none` also where reading throws.
unfoldable pub read : Text → Storage → Option Text
unfolding lookup
read key s = if s.readable then lookup key s.items else none

-- A refused write is passed over.
unfoldable pub write : Text → Text → Storage → Storage
unfolding insert
write key value s = if s.writable then record s { items = insert key value s.items } else s

pub lookup-insert :
    (key j value : Text) (items : List (Text × Text))
    → lookup j (insert key value items) ≡ (if text_eq key j then some value else lookup j items)
unfolding lookup insert
lookup-insert key j value [] = refl
lookup-insert key j value ((k, v) ∷ rest) =
    ground
      (arith, text_eq_iff k key, text_eq_iff k j, text_eq_iff key j, lookup-insert key j value rest)

-- What is read after a write.
pub read-write :
    (key j value : Text) (s : Storage)
    → s.readable ≡ true
    → s.writable ≡ true
    → read j (write key value s) ≡ (if text_eq key j then some value else read j s)
unfolding read write
read-write key j value s r w = rw (w, r) (lookup-insert key j value s.items)

pub readable-write : (key value : Text) (s : Storage) → (write key value s).readable ≡ s.readable
unfolding write
readable-write key value s = ground arith

pub writable-write : (key value : Text) (s : Storage) → (write key value s).writable ≡ s.writable
unfolding write
writable-write key value s = ground arith

pub read_self :
    (key value : Text) (s : Storage)
    → s.readable ≡ true
    → s.writable ≡ true
    → read key (write key value s) ≡ some value
read_self key value s r w = read-write key key value s r w ∙ rw (text_eq_refl key)

pub read_other :
    (key j value : Text) (s : Storage)
    → s.readable ≡ true
    → s.writable ≡ true
    → text_eq key j ≡ false
    → read j (write key value s) ≡ read j s
read_other key j value s r w d = read-write key j value s r w ∙ rw d
