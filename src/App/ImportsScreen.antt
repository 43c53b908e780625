-- ===== src/App/ImportsScreen.antt =====
-- web/src/app/ImportsScreen.tsx: the batches, a row for each.
use vekst.Prelude.{codes, List, [], ◌∷◌, map, Option, take}
use vekst.Prelude.Strings.{Text}
use vekst.Prelude.Result.{Result, ok, Failure, map_result, ◌>>=◌}
use vekst.Locale.{Locale}
use vekst.I18n.{t}
use vekst.Data.Upload.{SourceKind, ledger, bank}
use vekst.Data.Imports.{Batch}
use vekst.Ui.StateChip.{Chip, batch_state_chip}

abbrev source_key : SourceKind → Text
source_key ledger = codes "imports.source.ledger"
source_key bank = codes "imports.source.bank"

pub record Row : Type 0 where
  pub batch_id : Text
  pub file_name : Text
  pub source : Option Text
  pub chip : Chip
  pub uploaded : Text

unfoldable pub row : Locale → Batch → Result Row
unfolding batch_state_chip t
row locale b = do
  chip ← batch_state_chip b.state locale
  ok (record {
    batch_id = b.id;
    file_name = b.file_name;
    source = t (source_key b.source_kind) locale;
    chip = chip;
    uploaded = take 10 b.uploaded_at;
  })

-- The query for the batches.
pub data Query : Type 0 where
  pending : Query
  failed : Failure → Query
  loaded : List Batch → Query

pub data Body : Type 0 where
  loading : Option Text → Body
  failure : Failure → Body
  empty : (title detail : Option Text) → Body
  table : (columns : List (Option Text)) → List Row → Body

abbrev columns : List Text
columns =
    codes "imports.col.file"
    ∷ codes "imports.col.source"
    ∷ codes "imports.col.state"
    ∷ codes "imports.col.uploaded"
    ∷ []

-- ImportsScreen, below its upload control
unfoldable pub body : Locale → Query → Result Body
unfolding row map_result t
body locale pending = ok (loading (t (codes "imports.title") locale))
body locale (failed e) = ok (failure e)
body locale (loaded []) =
    ok (empty (t (codes "empty.imports.title") locale) (t (codes "empty.imports.detail") locale))
body locale (loaded (b ∷ batches)) = do
  rows ← map_result (row locale) (b ∷ batches)
  ok (table (map (λ key. t key locale) columns) rows)
