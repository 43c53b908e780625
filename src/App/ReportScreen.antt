-- ===== src/App/ReportScreen.antt =====
-- web/src/app/ReportScreen.tsx: the report's screen, from the query for its data.
pub mod Drilldown
pub mod Figures
pub mod Table
use vekst.Prelude.{codes, List, [], ◌∷◌, Option, none, some, Bool, true, false, ◌&&◌, if◌then◌else◌}
use vekst.Prelude.Strings.{Text, text_eq}
use vekst.Prelude.Result.{Failure, mixed_basis}
use vekst.Router.{ReportView, ReportSearch, table, charts}
use vekst.Data.Report.{Report, ReportLine, ReportBucket, Basis, cash, accrual}

-- The query for the report.
pub data Query : Type 0 where
  pending : Query
  failed : Failure → Query
  loaded : Report → Query

pub data Body : Type 0 where
  loading blocked empty : Body
  failure : Failure → Body
  figures : ReportView → Report → Body

-- lines.every((l) => l.total.minorUnits === "0")
unfoldable pub all_zero : List ReportLine → Bool
unfolding text_eq
all_zero [] = true
all_zero (l ∷ lines) = text_eq l.total.minor_units (codes "0") && all_zero lines

unfoldable pub all_buckets_zero : List ReportBucket → Bool
unfolding text_eq
all_buckets_zero [] = true
all_buckets_zero (b ∷ buckets) = text_eq b.total.minor_units (codes "0") && all_buckets_zero buckets

abbrev body_of_failure : Failure → Body
body_of_failure mixed_basis = blocked
body_of_failure e = failure e

unfoldable pub body : ReportView → Query → Body
unfolding all_zero all_buckets_zero
body view pending = loading
body view (failed e) = body_of_failure e
body view (loaded r) =
    if all_zero r.lines && all_buckets_zero r.buckets then empty else figures view r

abbrev basis_of : Basis → Text
basis_of cash = codes "report.basis.cash"
basis_of accrual = codes "report.basis.accrual"

-- The key of the basis, which stands beside the title once there is data.
unfoldable pub basis_key : Query → Option Text
basis_key pending = none
basis_key (failed e) = none
basis_key (loaded r) = some (basis_of r.basis)

pub record Tab : Type 0 where
  pub label_key : Text
  pub search : ReportSearch
  pub current : Bool

abbrev is_table : ReportView → Bool
is_table table = true
is_table charts = false

abbrev is_charts : ReportView → Bool
is_charts table = false
is_charts charts = true

-- ViewTabs
unfoldable pub tabs : ReportSearch → List Tab
tabs s =
    record {
      label_key = codes "report.tab.table";
      search = record { from = s.from; to = s.to; view = table };
      current = is_table s.view;
    }
    ∷ record {
      label_key = codes "report.tab.charts";
      search = record { from = s.from; to = s.to; view = charts };
      current = is_charts s.view;
    }
    ∷ []
