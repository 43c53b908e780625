-- ===== src/Router.antt =====
-- web/src/router.tsx: the search parameters of the report's route, and where the two redirects lead.
pub mod Laws
use vekst.Prelude.{
  Text, codes, ◌≡◌, refl, ◌⊎◌, inl, inr, Bool, true, false, [], ◌∷◌, if◌then◌else◌, arith,
  Bool-cases,
}
use vekst.Prelude.Strings.{text_eq}
use vekst.Ui.Period.{is_period, PeriodRange}
use vekst.Ui.PeriodPreference.{Store, get_period_range}
use vekst.Ui.PeriodPreference.Laws.{IsRange}

-- A parameter of the URL as the router parsed it; absent and of another type are alike here.
pub data Unknown : Type 0 where
  text : Text → Unknown
  other : Unknown

pub record Search : Type 0 where
  pub from : Unknown
  pub to : Unknown
  pub view : Unknown

pub data ReportView : Type 0 where
  table charts : ReportView

pub record ReportSearch : Type 0 where
  pub from : Text
  pub to : Text
  pub view : ReportView

abbrev pick : Unknown → Text → Text
pick other d = d
pick (text v) d = if is_period v then v else d

abbrev view_of : Unknown → ReportView
view_of other = table
view_of (text v) =
    if text_eq v (codes "table")
    then table
    else if text_eq v (codes "charts")
    then charts
    else table

unfoldable pub validate_search : Store → Search → ReportSearch
unfolding is_period text_eq get_period_range
validate_search store search = record {
  from = pick search.from (get_period_range store).from;
  to = pick search.to (get_period_range store).to;
  view = view_of search.view;
}

-- `/app/reports` to `/app/reports/pnl`
unfoldable pub reports_redirect : Store → ReportSearch
unfolding get_period_range
reports_redirect store = record {
  from = (get_period_range store).from;
  to = (get_period_range store).to;
  view = table;
}
