-- ===== src/App/ReportScreen/Drilldown.antt =====
-- web/src/app/DrilldownPanel.tsx: the transactions or the operands behind one figure.
use vekst.Prelude.{codes, List, [], ◌∷◌, map, Option, none, some, if◌then◌else◌}
use vekst.Prelude.Strings.{Text}
use vekst.Prelude.Result.{Result, ok, Failure, map_result, ◌>>=◌}
use vekst.Locale.{Locale}
use vekst.I18n.{t}
use vekst.Money.{no_data}
use vekst.Wire.Imports.{Double}
use vekst.App.LineName.{line_name, cell_name}
use vekst.Ui.Period.{DateFormats, format_period_long}
use vekst.Router.{ReportSearch}
use vekst.Data.Report.Fetch.{
  Drilldown, DrilldownRow, DrilldownOperand, DrilldownKind, transactions, operands,
}
use vekst.App.ReportScreen.Figures.{fmt}

pub record RowView : Type 0 where
  pub booked_on : Text
  pub description : Text
  pub category_label : Text
  pub layer : Text
  pub confidence : Text
  pub amount : Text

-- Math.round(confidence * 100) and its sign are a parameter.
abbrev confidence_text : (Double → Text) → Option Double → Text
confidence_text percent none = no_data
confidence_text percent (some c) = percent c

-- A row of Rows
unfoldable pub row_view : (Double → Text) → Locale → DrilldownRow → Result RowView
unfolding fmt
row_view percent locale r = do
  amount ← fmt r.amount locale
  ok (record {
    booked_on = r.booked_on;
    description = r.description;
    category_label = r.category_label;
    layer = r.layer;
    confidence = confidence_text percent r.confidence;
    amount = amount;
  })

pub record OperandView : Type 0 where
  pub name : Option Text
  pub sign : Text
  pub category_id : Text
  pub period : Text
  pub search : ReportSearch

-- An operand of Operands, and the cell it leads to
unfoldable pub operand_view : Text → ReportSearch → Locale → DrilldownOperand → OperandView
unfolding line_name
operand_view period search locale o = record {
  name = line_name o.category_id o.label locale;
  sign = if o.subtracted then codes "−" else codes "+";
  category_id = o.category_id;
  period = period;
  search = search;
}

-- The query for the figure.
pub data Query : Type 0 where
  pending : Query
  failed : Failure → Query
  loaded : Drilldown → Query

pub data Content : Type 0 where
  loading : Content
  failure : Failure → Content
  empty : Option Text → Content
  operand_list : Option Text → List OperandView → Content
  row_list : List RowView → Content

pub record Panel : Type 0 where
  pub title : Option Text
  pub period : Text
  pub amount : Option Text
  pub content : Content

module _ (percent : Double → Text) (f : DateFormats) (locale : Locale) where
  abbrev rows_content : List DrilldownRow → Result Content
  unfolding row_view map_result t
  rows_content [] = ok (empty (t (codes "drilldown.empty") locale))
  rows_content (r ∷ rows) = do
    views ← map_result (row_view percent locale) (r ∷ rows)
    ok (row_list views)

  abbrev content_of : Text → ReportSearch → DrilldownKind → Drilldown → Result Content
  unfolding operand_view t row_view map_result
  content_of period search transactions d = rows_content d.rows
  content_of period search operands d = ok (
      operand_list (t (codes "drilldown.operands") locale)
        (map (operand_view period search locale) d.operands))

  -- DrilldownPanel, less its footer
  unfoldable pub panel : (category_id period : Text) → ReportSearch → Query → Result Panel
  unfolding cell_name format_period_long fmt operand_view t row_view map_result
  panel id period search pending = ok (record {
    title = cell_name id id locale;
    period = format_period_long f period locale;
    amount = none;
    content = loading;
  })
  panel id period search (failed e) = ok (record {
    title = cell_name id id locale;
    period = format_period_long f period locale;
    amount = none;
    content = failure e;
  })
  panel id period search (loaded d) = do
    amount ← fmt d.amount locale
    content ← content_of period search d.kind d
    ok (record {
      title = cell_name id d.category_label locale;
      period = format_period_long f period locale;
      amount = some amount;
      content = content;
    })
