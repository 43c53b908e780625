-- ===== src/Examples/Reports.antt =====
-- A report from the wire and its table at concrete inputs.
use vekst.Prelude.{codes, refl, pos, negsuc, List, [], ◌∷◌, map, none, some, true, false}
use vekst.Prelude.Strings.{Text}
use vekst.Prelude.Decimal.{big_int, int_text, nat_text}
use vekst.Prelude.Lemmas.{All}
use vekst.Prelude.Returns.{Returns, Zipped}
use vekst.Locale.{en}
use vekst.Money.{Money}
use vekst.Wire
use vekst.Wire.Report.{ReportFigure}
use vekst.App.LineName.{unallocated}
use vekst.Data.Imports.{money_from_proto}
use vekst.Data.Report.{Report, cash, line_from_proto, figure_money, report_from_proto}
use vekst.Ui.Period.{DateFormats}
use vekst.Data.Report.Cash.{zero_money}
use vekst.Data.Report.Whole.{IsReadableLine, IsWhole, report_from_proto-IsWhole}
use vekst.App.ReportScreen.Table.{Props, pnl_table}
use vekst.App.ReportScreen.Table.Laws.{IsRowOf, IsBucketRowOf, pnl_table-IsRowOf}

abbrev zlotys : Text → Money
zlotys units = record { minor_units = units; currency_code = codes "PLN" }

abbrev figure_of : Text → ReportFigure
figure_of units = record { amount = some (zlotys units); percent_of_revenue = none }

abbrev wire_line : Text → Text → Text → Wire.Report.ReportLine
wire_line code label units = record {
  code = code;
  label = label;
  formula = [];
  computed = false;
  by_period = figure_of units ∷ [];
  total = some (figure_of units);
}

abbrev wire_lines : List Wire.Report.ReportLine
wire_lines =
    wire_line (codes "01") (codes "NET SALES") (codes "1000")
    ∷ wire_line (codes "93") (codes "CM") (codes "-50")
    ∷ []

wire_lines-IsReadableLine : All IsReadableLine (map line_from_proto wire_lines)
unfolding line_from_proto figure_money money_from_proto big_int
wire_lines-IsReadableLine =
    (((pos 1000, refl), ((pos 1000, refl), tt)), (((negsuc 49, refl), ((negsuc 49, refl), tt)), tt))

abbrev january : List Text
january = codes "2026-01" ∷ []

report_from_proto-IsWhole_example :
    Returns (IsWhole january wire_lines) (report_from_proto cash january wire_lines [] [] none)
report_from_proto-IsWhole_example =
    report_from_proto-IsWhole cash january wire_lines [] [] none wire_lines-IsReadableLine tt

abbrev one_month : Report
one_month = record {
  currency_code = codes "PLN";
  periods = january;
  basis = cash;
  lines =
      record {
        category_id = codes "01";
        label = codes "NET SALES";
        computed = false;
        values = zlotys (codes "1000") ∷ [];
        total = zlotys (codes "1000");
        percent_of_revenue = none;
      }
      ∷ [];
  buckets =
      record {
        kind = unallocated;
        values = zlotys (codes "-30") ∷ [];
        total = zlotys (codes "-30");
      }
      ∷ [];
  net_by_period = zlotys (codes "1000") ∷ [];
  net_total = zlotys (codes "1000");
  revenue_total = zlotys (codes "1000");
  expenses_total = zlotys (codes "0");
  expenses_by_period = zlotys (codes "0") ∷ [];
  cash = [];
  reconciliation = record {
    opening = zero_money;
    money_in = zero_money;
    money_out = zero_money;
    transfers = zero_money;
    closing = zero_money;
  };
  provenance = record { taxonomy_version = []; ruleset_version = []; engine_version = [] };
  unreviewed_amount = zlotys (codes "0");
}

abbrev plain_dates : DateFormats
plain_dates = record {
  short_month = λ _ m. nat_text m.month;
  short_month_year = λ _ m. nat_text m.month;
  long_month_year = λ _ m. nat_text m.month;
}

abbrev shown_table : Props
shown_table = record {
  report = one_month;
  locale = en;
  from = codes "2026-01";
  to = codes "2026-01";
  linked = true;
}

pnl_table-IsRowOf_example :
    Returns
      (λ table.
        Zipped (IsRowOf shown_table) one_month.lines table.rows
        × Zipped (IsBucketRowOf shown_table) one_month.buckets table.buckets)
      (pnl_table plain_dates (λ locale ratio. []) shown_table)
unfolding int_text
pnl_table-IsRowOf_example =
    pnl_table-IsRowOf shown_table plain_dates (λ locale ratio. [])
      (((pos 1000, refl), ((pos 1000, refl), tt)), tt)
      (((negsuc 29, refl), ((negsuc 29, refl), tt)), tt)
