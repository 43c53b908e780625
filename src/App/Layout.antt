-- ===== src/App/Layout.antt =====
-- web/src/app/AppLayout.tsx: the gate in front of the application, and the range in its header.
pub mod Laws
use vekst.Prelude.{codes, ℤ, pos, List, [], ◌∷◌, Option, none, some, Bool, if◌then◌else◌}
use vekst.Prelude.Strings.{Text}
use vekst.Client.{Session, Io, pure, ◌>>◌}
use vekst.Wire.Identity.{User, Entity, Organisation, GetCurrentUserResponse}
use vekst.Data.Session.{set_session}
use vekst.Data.Review.{ReviewSummary}
use vekst.Ui.Period.{PeriodRange}
use vekst.Ui.PeriodPreference.{Store, get_period_range, set_period_range}
use vekst.Router.{ReportSearch}

-- ConnectError.from(error): whether its code is Unauthenticated, and its message.
pub record Rejection : Type 0 where
  pub unauthenticated : Bool
  pub message : Text

-- The query for the current user.
pub data CurrentUser : Type 0 where
  pending : CurrentUser
  failed : Rejection → CurrentUser
  answered : GetCurrentUserResponse → CurrentUser

pub record Shell : Type 0 where
  pub awaiting_review : ℤ
  pub account : Text
  pub organisation : Text
  pub entity : Text
  pub range : PeriodRange

pub data View : Type 0 where
  loading unauthenticated first_run : View
  failure : Text → View
  shell : Shell → View

-- a || b
abbrev or_text : Text → Text → Text
or_text [] b = b
or_text (c ∷ a) b = c ∷ a

abbrev entity_id : List Entity → Text
entity_id [] = []
entity_id (e ∷ es) = e.id

abbrev entity_name : List Entity → Text
entity_name [] = []
entity_name (e ∷ es) = e.name

abbrev pub session_of : Organisation → Session
session_of o = record {
  org_id = o.id;
  entity_id = entity_id o.entities;
  base_currency = o.base_currency;
}

-- review.data?.groups ?? 0
abbrev awaiting : Option ReviewSummary → ℤ
awaiting none = pos 0
awaiting (some s) = s.groups

abbrev pub shell_of : User → Organisation → Option ReviewSummary → PeriodRange → Shell
shell_of user o review range = record {
  awaiting_review = awaiting review;
  account = or_text (or_text user.email user.name) user.id;
  organisation = o.name;
  entity = entity_name o.entities;
  range = range;
}

abbrev member_view : User → List Organisation → Option ReviewSummary → PeriodRange → Io View
member_view user [] review range = pure first_run
member_view user (o ∷ os) review range = do
  set_session (session_of o)
  pure (shell (shell_of user o review range))

abbrev user_view : Option User → List Organisation → Option ReviewSummary → PeriodRange → Io View
user_view none organisations review range = pure unauthenticated
user_view (some user) organisations review range = member_view user organisations review range

-- One render, given what the queries for the current user and for the review summary have; a query library
-- makes their calls. The children are rendered inside the shell only, and after the session is set.
unfoldable pub layout : CurrentUser → Option ReviewSummary → PeriodRange → Io View
unfolding set_session
layout pending review range = pure loading
layout (failed e) review range =
    pure (if e.unauthenticated then unauthenticated else failure e.message)
layout (answered data_) review range = user_view data_.user data_.organisations review range

-- What the header's range is read from: the range in memory, and the search of the report's route where
-- that is the active one.
pub record Header : Type 0 where
  pub store : Store
  pub report_match : Option ReportSearch

abbrev range_of : Store → Option ReportSearch → PeriodRange
range_of store none = get_period_range store
range_of store (some s) = record { from = s.from; to = s.to }

-- range
unfoldable pub shown_range : Header → PeriodRange
unfolding get_period_range
shown_range h = range_of h.store h.report_match

-- navigate({ search: { ...next, view } }), on the report's route only
abbrev navigated : PeriodRange → Option ReportSearch → Option ReportSearch
navigated next none = none
navigated next (some s) = some (record { from = next.from; to = next.to; view = s.view })

unfoldable pub on_period_change : PeriodRange → Header → Header
unfolding set_period_range
on_period_change next h = record {
  store = set_period_range next h.store;
  report_match = navigated next h.report_match;
}
