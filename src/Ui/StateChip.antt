-- ===== src/Ui/StateChip.antt =====
-- web/src/ui/StateChip.tsx: the mark, the colour and the word of each state.
use vekst.Prelude.{codes, Option, none, some, ◌++◌}
use vekst.Prelude.Strings.{Text}
use vekst.Prelude.Result.{Result, ok, err, type_error}
use vekst.Locale.{Locale}
use vekst.I18n.{t}
use vekst.Data.Imports.{BatchState}

pub data Tone : Type 0 where
  ok_tone warn danger neutral : Tone

pub data ReportState : Type 0 where
  ready partial blocked : ReportState

pub data RowState : Type 0 where
  classified needs_review row_blocked : RowState

pub data Shape : Type 0 where
  check alert cross dot clock half : Shape

-- BATCH
unfoldable pub batch_mark : BatchState → Tone × Shape
batch_mark BatchState.pending = (neutral, clock)
batch_mark BatchState.parsing = (neutral, dot)
batch_mark BatchState.rejected = (danger, cross)
batch_mark BatchState.imported = (ok_tone, check)

-- REPORT
unfoldable pub report_mark : ReportState → Tone × Shape
report_mark ready = (ok_tone, check)
report_mark partial = (warn, half)
report_mark blocked = (danger, alert)

-- ROW
unfoldable pub row_mark : RowState → Tone × Shape
row_mark classified = (neutral, check)
row_mark needs_review = (warn, alert)
row_mark row_blocked = (danger, alert)

abbrev pub batch_word : BatchState → Text
batch_word BatchState.pending = codes "pending"
batch_word BatchState.parsing = codes "parsing"
batch_word BatchState.rejected = codes "rejected"
batch_word BatchState.imported = codes "imported"

abbrev pub report_word : ReportState → Text
report_word ready = codes "ready"
report_word partial = codes "partial"
report_word blocked = codes "blocked"

abbrev pub row_word : RowState → Text
row_word classified = codes "classified"
row_word needs_review = codes "needsReview"
row_word row_blocked = codes "blocked"

pub record Chip : Type 0 where
  pub mark : Tone × Shape
  pub label : Option Text

-- A state with no entry has no tone to take apart.
unfoldable pub batch_state_chip : Option BatchState → Locale → Result Chip
unfolding batch_mark t
batch_state_chip none locale = err type_error
batch_state_chip (some s) locale =
    ok (record { mark = batch_mark s; label = t (codes "state.batch." ++ batch_word s) locale })

unfoldable pub report_state_chip : ReportState → Locale → Chip
unfolding report_mark t
report_state_chip s locale = record {
  mark = report_mark s;
  label = t (codes "state.report." ++ report_word s) locale;
}

unfoldable pub row_state_chip : RowState → Locale → Chip
unfolding row_mark t
row_state_chip s locale = record {
  mark = row_mark s;
  label = t (codes "state.row." ++ row_word s) locale;
}
