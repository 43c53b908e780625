-- ===== src/Data/Upload.antt =====
-- web/src/data/importUpload.ts: the upload handshake.
use vekst.Prelude.{Text, codes, ℤ, List, none, some, if◌then◌else◌, leb, ◌&&◌}
use vekst.Prelude.Result.{missing_message, upload_failed}
use vekst.Wire.Imports.{CreateImportBatchRequest}
use vekst.Wire.Imports
use vekst.Client.{Io, pure, throw, call, create_import_batch, put, confirm_import_upload, ◌>>=◌}

-- web/src/data/types.ts
pub data SourceKind : Type 0 where
  ledger bank : SourceKind

unfoldable pub to_proto_source_kind : SourceKind → Imports.SourceKind
to_proto_source_kind ledger = Imports.SourceKind.ledger
to_proto_source_kind bank = Imports.SourceKind.bank

pub record ReservedUpload : Type 0 where
  pub batch_id : Text
  pub upload_url : Text
  pub upload_headers : List (Text × Text)

pub record CreateInput : Type 0 where
  pub org_id : Text
  pub entity_id : Text
  pub source_kind : SourceKind
  pub file_name : Text
  pub declared_bytes : ℤ
  pub declared_type : Text

unfoldable pub reserve : CreateInput → Io ReservedUpload
unfolding call to_proto_source_kind
reserve input = do
  res ← call (
      create_import_batch (record {
        org_id = input.org_id;
        entity_id = input.entity_id;
        source_kind = to_proto_source_kind input.source_kind;
        file_name = input.file_name;
        declared_bytes = input.declared_bytes;
        declared_type = input.declared_type;
        import_profile_id = none;
      }))
  elim res.batch [
    | none ↦ throw (missing_message (codes "createImportBatch"))
    | some batch ↦ pure (record {
      batch_id = batch.id;
      upload_url = res.upload_url;
      upload_headers = res.upload_headers;
    })
  ]

-- `res.ok` is a status from 200 to 299.
unfoldable pub put_upload : ReservedUpload → Text → Io (Unit {0})
unfolding call
put_upload upload file = do
  status ← call (put upload.upload_url upload.upload_headers file)
  if leb 200 status && leb status 299 then pure tt else throw (upload_failed status)

unfoldable pub confirm_upload : Text → Text → Io (Unit {0})
unfolding call
confirm_upload org_id batch_id = call (confirm_import_upload org_id batch_id)
