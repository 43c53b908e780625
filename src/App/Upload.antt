-- ===== src/App/Upload.antt =====
-- web/src/app/Upload.tsx: the source is chosen, then a file is picked and sent.
use vekst.Prelude.{ℕ, zero, suc, List, [], ◌∷◌, ◌++◌, Option, none, some, Bool, true, false}
use vekst.Prelude.Result.{Result, ok, err}
use vekst.Data.Upload.{SourceKind}
use vekst.Data.Imports.{BatchDetail}
use vekst.Data.Imports.Upload.{File}

-- The control, the uploads that are not settled, all that were started, and how often `onUploaded` was
-- called. The file input is there when a source is chosen, and its value goes with it.
pub record Control : Type 0 where
  pub source_kind : Option SourceKind
  pub busy : Bool
  pub in_flight : List (File × SourceKind)
  pub started : List (File × SourceKind)
  pub uploaded : ℕ

abbrev pub mounted : Control
mounted = record { source_kind = none; busy = false; in_flight = []; started = []; uploaded = 0 }

unfoldable pub choose : SourceKind → Control → Control
choose k c = record c { source_kind = some k }

abbrev pub start : File → Option SourceKind → Control → Control
start file none c = c
start file (some k) c = record c {
  busy = true;
  in_flight = c.in_flight ++ (file, k) ∷ [];
  started = c.started ++ (file, k) ∷ [];
}

-- onPick, up to its `await`
unfoldable pub on_pick : Option File → Control → Control
on_pick none c = c
on_pick (some file) c = start file c.source_kind c

abbrev pub without : {A : Type 0} → ℕ → List A → List A
without i [] = []
without zero (x ∷ xs) = xs
without (suc i) (x ∷ xs) = x ∷ without i xs

-- The rest of onPick, after the answer to the upload at index `i` of those in flight
unfoldable pub settle : ℕ → Result BatchDetail → Control → Control
settle i (ok d) c = record c {
  source_kind = none;
  busy = false;
  in_flight = without i c.in_flight;
  uploaded = suc c.uploaded;
}
settle i (err e) c = record c { busy = false; in_flight = without i c.in_flight }

pub data Event : Type 0 where
  chosen : SourceKind → Event
  picked : Option File → Event
  settled : ℕ → Result BatchDetail → Event

unfoldable pub apply : Event → Control → Control
unfolding choose on_pick settle
apply (chosen k) c = choose k c
apply (picked file) c = on_pick file c
apply (settled i r) c = settle i r c
