-- ===== src/App/ReportScreen/Table.antt =====
-- web/src/app/PnlTable.tsx: the table of the management P&L.
pub mod Laws
use vekst.Prelude.{
  codes, ℕ, suc, List, [], ◌∷◌, map, Option, none, some, Bool, true, false, if◌then◌else◌,
  get_elem?,
}
use vekst.Prelude.Strings.{Text, text_eq}
use vekst.Prelude.Result.{Result, ok, map_result, ◌>>=◌}
use vekst.Locale.{Locale}
use vekst.I18n.{t}
use vekst.Money.{Money}
use vekst.Wire.Imports.{Double}
use vekst.App.LineName.{
  BucketKind, bucket_id, bucket_key, bucket_keys, line_name, line_abbreviation,
}
use vekst.Ui.Period.{DateFormats, format_period_short}
use vekst.Data.Report.{Report, ReportLine, ReportBucket}
use vekst.App.ReportScreen.Figures.{fmt}

-- The cell that a figure leads to; a value beyond the report's periods names none.
pub record CellLink : Type 0 where
  pub category_id : Text
  pub period : Option Text
  pub from : Text
  pub to : Text

pub record Cell : Type 0 where
  pub text : Text
  pub link : Option CellLink

pub data Emphasis : Type 0 where
  net_income computed plain : Emphasis

pub record Row : Type 0 where
  pub emphasis : Emphasis
  pub name : Option Text
  pub abbreviation : Text
  pub cells : List Cell
  pub total : Text
  pub percent : Text

-- What the table is rendered with: the range of its links, and whether it links at all.
pub record Props : Type 0 where
  pub report : Report
  pub locale : Locale
  pub from : Text
  pub to : Text
  pub linked : Bool

-- Figure
unfoldable pub figure : Props → Text → Option Text → Money → Result Cell
unfolding fmt
figure p category_id period value = do
  text ← fmt value p.locale
  ok (record {
    text = text;
    link =
        if p.linked
        then some (record { category_id = category_id; period = period; from = p.from; to = p.to })
        else none;
  })

-- values.map((v, i) => …), from index `i` on
unfoldable pub figures_from : Props → Text → ℕ → List Money → Result (List Cell)
unfolding figure
figures_from p category_id i [] = ok []
figures_from p category_id i (v ∷ values) = do
  cell ← figure p category_id (get_elem? p.report.periods i) v
  rest ← figures_from p category_id (suc i) values
  ok (cell ∷ rest)

abbrev emphasis_of : ReportLine → Emphasis
emphasis_of l =
    if text_eq l.category_id (codes "95")
    then net_income
    else if l.computed
    then computed
    else plain

-- fmtPercent, where the formatting of a ratio is a parameter
abbrev pub percent_text : (Locale → Double → Text) → Option Double → Locale → Text
percent_text format none locale = []
percent_text format (some ratio) locale = format locale ratio

unfoldable pub row : (Locale → Double → Text) → Props → ReportLine → Result Row
unfolding text_eq line_name line_abbreviation figures_from fmt
row format p l = do
  cells ← figures_from p l.category_id 0 l.values
  total ← fmt l.total p.locale
  ok (record {
    emphasis = emphasis_of l;
    name = line_name l.category_id l.label p.locale;
    abbreviation = line_abbreviation l.category_id l.label p.locale;
    cells = cells;
    total = total;
    percent = percent_text format l.percent_of_revenue p.locale;
  })

abbrev key_text : Option Text → Locale → Option Text
key_text none locale = none
key_text (some key) locale = t key locale

pub record BucketRow : Type 0 where
  pub name : Option Text
  pub cells : List Cell
  pub total : Text

unfoldable pub bucket_row : Props → ReportBucket → Result BucketRow
unfolding bucket_key t figures_from fmt
bucket_row p b = do
  cells ← figures_from p (bucket_id b.kind) 0 b.values
  total ← fmt b.total p.locale
  ok (record {
    name = key_text (bucket_key (bucket_id b.kind) bucket_keys) p.locale;
    cells = cells;
    total = total;
  })

pub record Table : Type 0 where
  pub currency : Text
  pub periods : List Text
  pub rows : List Row
  pub buckets : List BucketRow

unfoldable pub pnl_table : DateFormats → (Locale → Double → Text) → Props → Result Table
unfolding format_period_short row bucket_row map_result
pnl_table f format p = do
  rows ← map_result (row format p) p.report.lines
  buckets ← map_result (bucket_row p) p.report.buckets
  ok (record {
    currency = p.report.currency_code;
    periods = map (λ x. format_period_short f x p.locale) p.report.periods;
    rows = rows;
    buckets = buckets;
  })
