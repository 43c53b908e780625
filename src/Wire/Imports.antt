-- ===== src/Wire/Imports.antt =====
-- web/src/gen/vekst/v1/import_pb.ts: the import service's messages. An enum is open: a number of a
-- later server is `unrecognised`. `ImportBatch.classificationRun`, which no module reads, is left out.
use vekst.Prelude.{Text, ℕ, ℤ, List, Bool, Option}
use vekst.Money.{Money}

-- An IEEE 754 number by its bits: the client passes such a value on and never computes with it.
abbrev pub Double : Type 0
Double = ℕ

-- google.protobuf.Timestamp
pub record Timestamp : Type 0 where
  pub seconds : ℤ
  pub nanos : ℤ

pub data SourceKind : Type 0 where
  unspecified ledger bank : SourceKind
  unrecognised : ℕ → SourceKind

pub data ImportStatus : Type 0 where
  unspecified awaiting_upload abandoned uploaded parsing parsed validating validated rejected
        persisting imported failed :
      ImportStatus
  unrecognised : ℕ → ImportStatus

pub data ValidationOutcome : Type 0 where
  unspecified valid valid_with_warnings rejected : ValidationOutcome
  unrecognised : ℕ → ValidationOutcome

pub record ImportBatch : Type 0 where
  pub id : Text
  pub entity_id : Text
  pub source_kind : SourceKind
  pub status : ImportStatus
  pub file_name : Text
  pub byte_length : ℤ
  pub failure_code : Text
  pub created_at : Option Timestamp

pub record ValidationError : Type 0 where
  pub line : ℤ
  pub field : Text
  pub code : Text
  pub raw : Text

pub record BalanceMismatchDetail : Type 0 where
  pub opening : ℤ
  pub movements : ℤ
  pub closing : ℤ
  pub difference : ℤ
  pub currency : Text

pub record ValidationWarning : Type 0 where
  pub code : Text
  pub balance_mismatch : Option BalanceMismatchDetail

pub record ValidationReport : Type 0 where
  pub batch_id : Text
  pub outcome : ValidationOutcome
  pub row_count : ℤ
  pub error_count : ℤ
  pub warning_count : ℤ
  pub balance_check_passed : Option Bool
  pub errors : List ValidationError
  pub warnings : List ValidationWarning
  pub overridden_by_user_id : Text
  pub override_reason : Text
  pub overridden_at : Option Timestamp

pub record DedupSummary : Type 0 where
  pub imported_rows : ℤ
  pub skipped_in_batch : ℤ
  pub skipped_cross_batch : ℤ
  pub internal_transfers : ℤ

pub record SkippedRow : Type 0 where
  pub line_no : ℤ
  pub posting_no : ℤ
  pub level : Text
  pub dedup_hash : Text
  pub matched_transaction_id : Text
  pub matched_batch_id : Text
  pub created_at : Option Timestamp

pub record InternalTransfer : Type 0 where
  pub id : Text
  pub out_transaction_id : Text
  pub in_transaction_id : Text
  pub detected_at : Option Timestamp
  pub dismissed_by_user_id : Text
  pub dismissed_at : Option Timestamp

pub record ImportedRow : Type 0 where
  pub id : Text
  pub booked_on : Text
  pub line_no : ℤ
  pub posting_no : ℤ
  pub document_ref : Text
  pub amount : Option Money
  pub base_amount : Option Money
  pub counterparty_raw : Text
  pub description : Text
  pub regulated_code : Text
  pub category_code : Text
  pub category_name : Text
  pub engine_layer : Text
  pub evidence : Text
  pub confidence : Option Double

pub record CreateImportBatchRequest : Type 0 where
  pub org_id : Text
  pub entity_id : Text
  pub source_kind : SourceKind
  pub file_name : Text
  pub declared_bytes : ℤ
  pub declared_type : Text
  pub import_profile_id : Option Text

pub record CreateImportBatchResponse : Type 0 where
  pub batch : Option ImportBatch
  pub upload_url : Text
  pub upload_headers : List (Text × Text)
  pub expires_at : Option Timestamp
