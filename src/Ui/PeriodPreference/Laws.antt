-- ===== src/Ui/PeriodPreference/Laws.antt =====
-- The range in memory is always one that a report can be asked for.
use vekst.Prelude.{◌≤◌, ◌<◌, ◌≡◌, refl, ◌∙◌, true, false, arith, some, Option-cases, inl, inr}
use vekst.Prelude.Strings.{text_eq, pad_start}
use vekst.Prelude.Lemmas.{nat_text_four, nat_text_one, nat_text_two}
use native.Mathlib.Decide.{dec_lt}
use vekst.Ui.Period.{Month, PeriodRange, default_range, is_period}
use vekst.Ui.Storage.{read, write, readable-write, writable-write, read_self, read_other}
use vekst.Ui.PeriodPreference.{
  Store, init_period_range, get_period_range, set_period_range, from_key, to_key,
}

abbrev pub IsRange : PeriodRange → Type 0
IsRange r = (is_period r.from ≡ true) × (is_period r.to ≡ true)

keys_differ : text_eq to_key from_key ≡ false
unfolding text_eq
keys_differ = refl

-- What is stored is read back: a range that was set is the one that the next visit opens to, if it is
-- a range of months and the browser lets storage be read and written.
pub init-set_period_range :
    (now : Month) (next : PeriodRange) (s : Store)
    → IsRange next
    → s.storage.readable ≡ true
    → s.storage.writable ≡ true
    → get_period_range (init_period_range now (set_period_range next s)) ≡ next
unfolding init_period_range set_period_range get_period_range
init-set_period_range now next s h r w =
    let s' = write from_key next.from s.storage in
    let r' = readable-write from_key next.from s.storage ∙ r in
    let w' = writable-write from_key next.from s.storage ∙ w in
    let to_read = read_self to_key next.to s' r' w' in
    let from_read : read from_key (write to_key next.to s') ≡ some next.from =
      read_other to_key from_key next.to s' r' w' keys_differ
      ∙ read_self from_key next.from s.storage r w in
    rw (to_read, from_read) (rw (h.0, h.1))

default_range-IsRange :
    (now : Month)
    → 1000 ≤ now.year
    → now.year < 10000
    → 1 ≤ now.month
    → now.month ≤ 12
    → IsRange (default_range now)
unfolding default_range is_period pad_start
default_range-IsRange now lo hi first last =
    rw (nat_text_four now.year lo hi) (elim (dec_lt now.month 10) [
      | yes small ↦ rw (nat_text_one now.month small) (ground arith, ground arith)
      | no big ↦
          rw (nat_text_two now.month (omega arith) (omega arith)) (ground arith, ground arith)
    ])

-- Whatever is stored, a browser that starts has a range of two months: its date is one of the years
-- 1000 to 9999.
pub init_period_range-IsRange :
    (now : Month) (s : Store)
    → 1000 ≤ now.year
    → now.year < 10000
    → 1 ≤ now.month
    → now.month ≤ 12
    → IsRange (get_period_range (init_period_range now s))
unfolding init_period_range get_period_range
init_period_range-IsRange now s lo hi first last =
    let d = default_range-IsRange now lo hi first last in
    elim (Option-cases (read from_key s.storage)) [
      | inl e ↦ rw e d
      | inr (from, e) ↦ elim (Option-cases (read to_key s.storage)) [
        | inl e' ↦ rw (e, e') d
        | inr (to, e') ↦ rw (e, e') (ground (arith, d))
      ]
    ]
