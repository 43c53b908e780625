-- ===== src/Examples/Calls.antt =====
-- The calls of core at concrete inputs, with a platform that answers some of them.
use vekst.Prelude.{Text, codes, pos, ◌≡◌, refl, List, [], ◌∷◌, none, some}
use vekst.Prelude.Result.{Result, ok, err, rejected, mixed_basis}
use vekst.Wire.Imports.{ImportBatch}
use vekst.Wire.Imports
use vekst.Client.{
  Call, Reply, create_import_batch, put, confirm_import_upload, get_import_batch, get_dedup_summary,
  list_import_batches, Platform, Session,
}
use vekst.Data.Upload.{ledger, bank}
use vekst.Data.Imports.{
  Batch, BatchState, get_batch, batch_from_proto, state_by_status, from_proto_source_kind,
}
use vekst.Data.Imports.Upload.{File, upload_batch}
use vekst.Data.Imports.Detail.{Read, get_batch-Read}
use vekst.Data.Imports.Handshake.{Handshake, upload_batch-Handshake, state_of}
use vekst.Data.Report.Fetch.{basis_of, get_report}
use vekst.Data.Report.Fetch.Laws.{Agrees, basis_of-Agrees, IsOf, here, there, get_report_mixed}
use vekst.Data.Review.{classify, decide_group}
use vekst.Data.Review.Laws.{decision_call, Decided, decide_group-cases}

abbrev batch : ImportBatch
batch = record {
  id = codes "b1";
  entity_id = codes "e1";
  source_kind = Imports.SourceKind.bank;
  status = Imports.ImportStatus.imported;
  file_name = codes "may.csv";
  byte_length = pos 12;
  failure_code = [];
  created_at = none;
}

-- The report's call is rejected, as are all that are not listed.
abbrev answer : List Call → (c : Call) → Result (Reply c)
answer _ (create_import_batch _) = ok (record {
  batch = some batch;
  upload_url = codes "https://store/b1";
  upload_headers = [];
  expires_at = none;
})
answer _ (put _ _ _) = ok 200
answer _ (confirm_import_upload _ _) = ok tt
answer _ (get_import_batch _ _) = ok (some batch)
answer _ (get_dedup_summary _ _) = ok none
answer _ _ = err (rejected (codes "unavailable"))

abbrev platform : Platform
platform = record {
  answer = answer;
  timestamp_date = λ s. s.seconds;
  to_iso_string = λ d. codes "1970-01-01T00:00:00.000Z";
  message_of = λ e. [];
}

abbrev session : Session
session = record { org_id = codes "o1"; entity_id = codes "e1"; base_currency = codes "EUR" }

abbrev file : File
file = record { name = codes "may.csv"; size = pos 12; type_ = []; content = codes "a;b" }

upload_batch-Handshake_example :
    let done = upload_batch file bank platform (state_of (some session) []) in
    Handshake platform (state_of (some session) []) session file bank done.0 done.1.calls
upload_batch-Handshake_example = upload_batch-Handshake session file bank platform []

get_batch-Read_example :
    let done = get_batch (codes "b1") platform (state_of (some session) []) in
    Read platform session [] (codes "b1") done.0 done.1.calls
get_batch-Read_example = get_batch-Read platform session [] (codes "b1")

abbrev imported : Text → Batch
imported id = record {
  id = id;
  file_name = codes "may.csv";
  source_kind = bank;
  state = some BatchState.imported;
  uploaded_at = [];
  rejection_reason = none;
}

abbrev batches : List Batch
batches = imported (codes "b1") ∷ record (imported (codes "b2")) { source_kind = ledger } ∷ []

basis_of-Agrees_example : Agrees batches (basis_of batches)
basis_of-Agrees_example = basis_of-Agrees batches

abbrev mixed_answer : List Call → (c : Call) → Result (Reply c)
mixed_answer _ (list_import_batches _ _) =
    ok (batch ∷ record batch { source_kind = Imports.SourceKind.ledger } ∷ [])
mixed_answer before c = answer before c

-- One batch of each kind of source.
abbrev mixed : Platform
mixed = record platform { answer = mixed_answer }

bank_there : IsOf bank (batch_from_proto mixed batch)
unfolding batch_from_proto state_by_status from_proto_source_kind
bank_there = (refl, refl)

ledger_there :
    IsOf ledger (batch_from_proto mixed (record batch { source_kind = Imports.SourceKind.ledger }))
unfolding batch_from_proto state_by_status from_proto_source_kind
ledger_there = (refl, refl)

get_report_mixed_example :
    get_report (codes "2026-01") (codes "2026-03") mixed (state_of (some session) []) ≡ (
      err mixed_basis,
      state_of (some session) (list_import_batches (codes "o1") (codes "e1") ∷ []),
    )
get_report_mixed_example =
    get_report_mixed mixed session [] (codes "2026-01") (codes "2026-03")
      (batch ∷ record batch { source_kind = Imports.SourceKind.ledger } ∷ []) refl
      (there (here ledger_there)) (here bank_there)

decide_group-cases_example :
    let done =
      decide_group (codes "acme") (classify (codes "0101")) platform (state_of (some session) []) in
    let c = decision_call session (codes "acme") (classify (codes "0101")) in
    (done.1 ≡ state_of (some session) (c ∷ [])) × Decided platform (platform.answer [] c) done.0
decide_group-cases_example =
    decide_group-cases (codes "acme") (classify (codes "0101")) platform session []
