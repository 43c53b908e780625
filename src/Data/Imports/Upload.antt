-- ===== src/Data/Imports/Upload.antt =====
-- web/src/data/imports.ts, `uploadBatch`: reserve, put, confirm, and read the batch back.
use vekst.Prelude.{Text, codes, ℤ, [], ◌∷◌, Option, none, some}
use vekst.Prelude.Result.{batch_vanished}
use vekst.Client.{Io, pure, throw, ◌>>=◌, ◌>>◌}
use vekst.Data.Session.{require_session}
use vekst.Data.Upload.{SourceKind, reserve, put_upload, confirm_upload}
use vekst.Data.Imports.{BatchDetail, get_batch}

-- The browser's File: its name, size, type, and content.
pub record File : Type 0 where
  pub name : Text
  pub size : ℤ
  pub type_ : Text
  pub content : Text

abbrev pub declared_type_of : Text → Text
declared_type_of [] = codes "application/octet-stream"
declared_type_of (c ∷ s) = c ∷ s

abbrev pub or_vanished : Option BatchDetail → Io BatchDetail
or_vanished none = throw batch_vanished
or_vanished (some d) = pure d

unfoldable pub upload_batch : File → SourceKind → Io BatchDetail
unfolding require_session reserve put_upload confirm_upload get_batch
upload_batch file source_kind = do
  session ← require_session
  reserved ← reserve (record {
    org_id = session.org_id;
    entity_id = session.entity_id;
    source_kind = source_kind;
    file_name = file.name;
    declared_bytes = file.size;
    declared_type = declared_type_of file.type_;
  })
  put_upload reserved file.content
  confirm_upload session.org_id reserved.batch_id
  detail ← get_batch reserved.batch_id
  or_vanished detail
