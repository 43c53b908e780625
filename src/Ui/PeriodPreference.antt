-- ===== src/Ui/PeriodPreference.antt =====
-- web/src/ui/periodPreference.ts: the last period range chosen. The listeners that React subscribes
-- are told of a change once for each `emitted`.
pub mod Laws
use vekst.Prelude.{
  Text, codes, ℕ, suc, Option, none, some, Bool, true, false, ◌&&◌, if◌then◌else◌, [], ◌∷◌,
}
use vekst.Ui.Period.{Month, PeriodRange, default_range, is_period}
use vekst.Ui.Storage.{Storage, read, write}

abbrev pub from_key : Text
from_key = codes "veekst.period.from"

abbrev pub to_key : Text
to_key = codes "veekst.period.to"

pub record Store : Type 0 where
  pub range : PeriodRange
  pub storage : Storage
  pub emitted : ℕ

abbrev stored_or : PeriodRange → Option Text → Option Text → PeriodRange
stored_or fallback (some from) (some to) =
    if is_period from && is_period to then record { from = from; to = to } else fallback
stored_or fallback _ _ = fallback

-- `default_range now` where nothing valid is stored; an empty text is no period either.
unfoldable pub init_period_range : Month → Store → Store
unfolding read default_range
init_period_range now s = record s {
  range = stored_or (default_range now) (read from_key s.storage) (read to_key s.storage);
}

unfoldable pub get_period_range : Store → PeriodRange
get_period_range s = s.range

unfoldable pub set_period_range : PeriodRange → Store → Store
unfolding write
set_period_range next s = record s {
  range = next;
  storage = write to_key next.to (write from_key next.from s.storage);
  emitted = suc s.emitted;
}
