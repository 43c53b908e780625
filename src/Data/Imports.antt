-- ===== src/Data/Imports.antt =====
-- web/src/data/imports.ts: import batches, their validation results and their rows.
pub mod Upload
pub mod Detail
pub mod Handshake
use vekst.Prelude.{Text, codes, ℤ, pos, List, [], ◌∷◌, map, Option, none, some, if◌then◌else◌}
use mathlib.Core.Option
use vekst.Prelude.Int.{◌+ℤ◌}
use vekst.Prelude.Decimal.{int_text}
use vekst.Money.{Money}
use vekst.Wire.Imports.{
  ImportStatus, ImportBatch, BalanceMismatchDetail, ValidationWarning, ValidationReport,
  DedupSummary, ImportedRow, Double,
}
use vekst.Wire.Imports
use vekst.Client.{
  Platform, Io, pure, call, both, optional, get_import_batch, get_validation_report,
  get_dedup_summary, list_import_batches, list_batch_transactions, ◌>>=◌,
}
use vekst.Data.Session.{require_session}
use vekst.Data.Upload.{SourceKind, ledger, bank}

pub data BatchState : Type 0 where
  pending parsing rejected imported : BatchState

-- STATE_BY_STATUS; a status of a later server has no entry.
unfoldable pub state_by_status : ImportStatus → Option BatchState
state_by_status ImportStatus.unspecified = some BatchState.pending
state_by_status ImportStatus.awaiting_upload = some BatchState.pending
state_by_status ImportStatus.uploaded = some BatchState.pending
state_by_status ImportStatus.parsing = some BatchState.parsing
state_by_status ImportStatus.parsed = some BatchState.parsing
state_by_status ImportStatus.validating = some BatchState.parsing
state_by_status ImportStatus.validated = some BatchState.parsing
state_by_status ImportStatus.persisting = some BatchState.parsing
state_by_status ImportStatus.rejected = some BatchState.rejected
state_by_status ImportStatus.abandoned = some BatchState.rejected
state_by_status ImportStatus.failed = some BatchState.rejected
state_by_status ImportStatus.imported = some BatchState.imported
state_by_status (ImportStatus.unrecognised n) = none

unfoldable pub from_proto_source_kind : Imports.SourceKind → SourceKind
from_proto_source_kind Imports.SourceKind.ledger = ledger
from_proto_source_kind _ = bank

-- text || undefined
abbrev pub or_undefined : Text → Option Text
or_undefined [] = none
or_undefined (c ∷ s) = some (c ∷ s)

pub record Batch : Type 0 where
  pub id : Text
  pub file_name : Text
  pub source_kind : SourceKind
  pub state : Option BatchState
  pub uploaded_at : Text
  pub rejection_reason : Option Text

unfoldable pub batch_from_proto : Platform → ImportBatch → Batch
unfolding state_by_status from_proto_source_kind
batch_from_proto p b = record {
  id = b.id;
  file_name = b.file_name;
  source_kind = from_proto_source_kind b.source_kind;
  state = state_by_status b.status;
  uploaded_at = elim b.created_at [
    | none ↦ p.to_iso_string (pos 0)
    | some created ↦ p.to_iso_string (p.timestamp_date created)
  ];
  rejection_reason = or_undefined b.failure_code;
}

pub record ValidationError : Type 0 where
  pub file_line : ℤ
  pub code : Text
  pub detail : Option Text

unfoldable pub error_from_proto : Imports.ValidationError → ValidationError
error_from_proto e = record { file_line = e.line; code = e.code; detail = or_undefined e.raw }

pub record BatchCounts : Type 0 where
  pub rows_imported : ℤ
  pub duplicates_skipped : ℤ
  pub internal_transfers_found : ℤ

pub record BalanceCheck : Type 0 where
  pub opening : Money
  pub movements : Money
  pub closing : Money
  pub declared : Money

abbrev pub in_currency : Text → ℤ → Money
in_currency currency units = record { minor_units = int_text units; currency_code = currency }

-- `closing` is computed; what the statement declares is `declared`.
unfoldable pub balance_check_from_proto : BalanceMismatchDetail → BalanceCheck
balance_check_from_proto bm = record {
  opening = in_currency bm.currency bm.opening;
  movements = in_currency bm.currency bm.movements;
  closing = in_currency bm.currency (bm.opening +ℤ bm.movements);
  declared = in_currency bm.currency bm.closing;
}

pub record BatchDetail : Type 0 where
  pub batch : Batch
  pub errors : List ValidationError
  pub counts : Option BatchCounts
  pub balance_check : Option BalanceCheck

unfoldable pub list_batches : Io (List Batch)
unfolding require_session call batch_from_proto
list_batches p =
    (do
      session ← require_session
      batches ← call (list_import_batches session.org_id session.entity_id)
      pure (map (batch_from_proto p) batches))
      p

-- warnings.find((w) => w.balanceMismatch)?.balanceMismatch
unfoldable pub first_mismatch : List ValidationWarning → Option BalanceMismatchDetail
first_mismatch [] = none
first_mismatch (w ∷ ws) = elim w.balance_mismatch [ none ↦ first_mismatch ws | some bm ↦ some bm ]

abbrev errors_of : Option ValidationReport → List ValidationError
errors_of none = []
errors_of (some report) = map error_from_proto report.errors

abbrev mismatch_of : Option ValidationReport → Option BalanceMismatchDetail
mismatch_of none = none
mismatch_of (some report) = first_mismatch report.warnings

unfoldable pub counts_of : DedupSummary → BatchCounts
counts_of summary = record {
  rows_imported = summary.imported_rows;
  duplicates_skipped = summary.skipped_in_batch +ℤ summary.skipped_cross_batch;
  internal_transfers_found = summary.internal_transfers;
}

-- `validation?.report`: a rejected call is as an answer without a report.
abbrev pub flat {ℓ} : {A : Type ℓ} → Option (Option A) → Option A
flat none = none
flat (some a) = a

unfoldable pub detail_of : Batch → Option ValidationReport → Option DedupSummary → BatchDetail
unfolding error_from_proto first_mismatch counts_of balance_check_from_proto
detail_of batch report summary = record {
  batch = batch;
  errors = errors_of report;
  counts = Option.map counts_of summary;
  balance_check = Option.map balance_check_from_proto (mismatch_of report);
}

-- From the batch on: its report and its summary are read together, and either may be missing.
unfoldable pub read_detail : Text → Text → Option ImportBatch → Io (Option BatchDetail)
unfolding call batch_from_proto detail_of
read_detail org_id id none p = pure none p
read_detail org_id id (some wire) p =
    (do
      (validation, dedup) ←
          both (optional (call (get_validation_report org_id id)))
            (optional (call (get_dedup_summary org_id id)))
      pure (some (detail_of (batch_from_proto p wire) (flat validation) (flat dedup))))
      p

unfoldable pub get_batch : Text → Io (Option BatchDetail)
unfolding require_session call read_detail
get_batch id = do
  session ← require_session
  found ← call (get_import_batch session.org_id id)
  read_detail session.org_id id found

pub record BatchRow : Type 0 where
  pub id : Text
  pub booked_on : Text
  pub line_no : ℤ
  pub posting_no : ℤ
  pub document_ref : Text
  pub amount : Money
  pub base_amount : Option Money
  pub counterparty_raw : Text
  pub description : Text
  pub regulated_code : Text
  pub category_code : Text
  pub category_name : Text
  pub engine_layer : Text
  pub evidence : Text
  pub confidence : Option Double

unfoldable pub money_from_proto : Option Money → Money
money_from_proto none = record { minor_units = codes "0"; currency_code = [] }
money_from_proto (some m) = record { minor_units = m.minor_units; currency_code = m.currency_code }

unfoldable pub batch_row_from_proto : ImportedRow → BatchRow
unfolding money_from_proto
batch_row_from_proto r = record {
  id = r.id;
  booked_on = r.booked_on;
  line_no = r.line_no;
  posting_no = r.posting_no;
  document_ref = r.document_ref;
  amount = money_from_proto r.amount;
  base_amount = Option.map (λ m. money_from_proto (some m)) r.base_amount;
  counterparty_raw = r.counterparty_raw;
  description = r.description;
  regulated_code = r.regulated_code;
  category_code = r.category_code;
  category_name = r.category_name;
  engine_layer = r.engine_layer;
  evidence = r.evidence;
  confidence = r.confidence;
}

unfoldable pub list_rows : Text → Io (List BatchRow)
unfolding require_session call batch_row_from_proto
list_rows batch_id = do
  session ← require_session
  rows ← call (list_batch_transactions session.org_id batch_id)
  pure (map batch_row_from_proto rows)
