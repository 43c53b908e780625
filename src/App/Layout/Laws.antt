-- ===== src/App/Layout/Laws.antt =====
-- Who gets past the gate, and what a change of the range changes.
use vekst.Prelude.{
  ◌≡◌, refl, ◌⊎◌, inl, inr, List, [], ◌∷◌, Option, none, some, Bool, true, false, if◌then◌else◌,
}
use vekst.Prelude.Result.{Result, ok, err}
use vekst.Client.{Platform, State}
use vekst.Wire.Identity.{User, Organisation}
use vekst.Data.Session.{set_session}
use vekst.Data.Review.{ReviewSummary}
use vekst.Ui.Period.{Month, PeriodRange}
use vekst.Ui.PeriodPreference.{Store, init_period_range, get_period_range, set_period_range}
use vekst.Ui.PeriodPreference.Laws.{IsRange, init-set_period_range}
use vekst.Router.{ReportSearch, validate_search}
use vekst.Router.Laws.{to_search, validate_search-to_search}
use vekst.App.Layout.{
  Rejection, CurrentUser, pending, failed, answered, View, loading, unauthenticated, first_run,
  failure, shell, session_of, shell_of, layout, user_view, range_of, navigated, Header, shown_range,
  on_period_change,
}

-- Core says that nobody is signed in, or answers without a user.
abbrev pub IsSignedOut : CurrentUser → Type 0
IsSignedOut q =
    ((e : Rejection) × (q ≡ failed e) × (e.unauthenticated ≡ true))
    ⊎ ((os : List Organisation) × (q ≡ answered (record { user = none; organisations = os })))

-- For each view that a render leaves, the only answer that it is left for, and what is changed.
abbrev pub IsGated :
    CurrentUser → Option ReviewSummary → PeriodRange → State → Result View × State → Type 0
IsGated q review range s (ok (shell x), s') =
    (user : User) × (o : Organisation) × (os : List Organisation) × (q
      ≡ answered (record { user = some user; organisations = o ∷ os }))
    × (x ≡ shell_of user o review range)
    × (s'.session ≡ some (session_of o))
    × (s'.calls ≡ s.calls)
IsGated q review range s (ok first_run, s') =
    (s' ≡ s) × ((user : User) × (q ≡ answered (record { user = some user; organisations = [] })))
IsGated q review range s (ok unauthenticated, s') = (s' ≡ s) × IsSignedOut q
IsGated q review range s (ok loading, s') = (s' ≡ s) × (q ≡ pending)
IsGated q review range s (ok (failure m), s') =
    (s' ≡ s) × ((e : Rejection) × (q ≡ failed e) × (e.unauthenticated ≡ false) × (m ≡ e.message))
IsGated q review range s (err e, s') = ⊥

-- What a render shows, given what its two queries have, and when: the application for a signed-in member of
-- an organisation only, after the session of the first of the organisations is set; the first-run
-- screen for a person without an organisation only; the sign-in view where core says that nobody is
-- signed in, or answers without a user; an error, with its message, for any other rejection; and the
-- loading view while there is no answer. No render fails, and none but the application's changes the
-- session.
pub layout-IsGated :
    (q : CurrentUser) (review : Option ReviewSummary) (range : PeriodRange) (p : Platform)
    (s : State)
    → IsGated q review range s (layout q review range p s)
unfolding layout set_session
layout-IsGated pending review range p s = (refl, refl)
layout-IsGated (failed e) review range p s = rejected e.unauthenticated refl
  where
    rejected :
        (b : Bool)
        → e.unauthenticated ≡ b
        → IsGated
            (failed e)
            review
            range
            s
            (ok (if b then unauthenticated else failure e.message), s)
    rejected true h = (refl, inl (e, refl, h))
    rejected false h = (refl, (e, refl, h, refl))
layout-IsGated (answered r) review range p s = go r.user r.organisations
  where
    go :
        (u : Option User) (os : List Organisation)
        → IsGated
            (answered (record { user = u; organisations = os }))
            review
            range
            s
            (user_view u os review range p s)
    go none os = (refl, inr (os, refl))
    go (some user) [] = (refl, (user, refl))
    go (some user) (o ∷ os) = (user, o, os, refl, refl, refl, refl)

on_period_change-shown :
    (next : PeriodRange) (h : Header) → shown_range (on_period_change next h) ≡ next
unfolding shown_range on_period_change get_period_range set_period_range
on_period_change-shown next h = go h.report_match
  where
    go :
        (m : Option ReportSearch)
        → range_of (set_period_range next h.store) (navigated next m) ≡ next
    go none = refl
    go (some r) = refl

-- The report's search before and after a change: the same tab, and a link of the new one opens to the new
-- range whatever range the browser that opens it remembers.
abbrev pub IsLinked : PeriodRange → Store → Option ReportSearch → Option ReportSearch → Type 0
IsLinked next elsewhere none none = Unit
IsLinked next elsewhere (some r) (some r') =
    validate_search elsewhere (to_search r')
    ≡ record { from = next.from; to = next.to; view = r.view }
IsLinked next elsewhere _ _ = ⊥

navigated-IsLinked :
    (next : PeriodRange) (elsewhere : Store) (m : Option ReportSearch)
    → IsRange next
    → IsLinked next elsewhere m (navigated next m)
navigated-IsLinked next elsewhere none h = tt
navigated-IsLinked next elsewhere (some r) h =
    validate_search-to_search elsewhere (record { from = next.from; to = next.to; view = r.view }) h

-- A change of the range is a change of one range wherever it is read: on screen, in memory for the screens
-- without one of their own, at the next visit, and by whoever opens the report's link, whose tab is
-- kept. The range is one of months, and the browser lets storage be read and written.
pub on_period_change-IsLinked :
    (now : Month) (next : PeriodRange) (h : Header) (elsewhere : Store)
    → IsRange next
    → h.store.storage.readable ≡ true
    → h.store.storage.writable ≡ true
    → (shown_range (on_period_change next h) ≡ next)
      × (get_period_range (on_period_change next h).store ≡ next)
      × (get_period_range (init_period_range now (on_period_change next h).store) ≡ next)
      × IsLinked next elsewhere h.report_match (on_period_change next h).report_match
unfolding on_period_change
on_period_change-IsLinked now next h elsewhere valid r w = (
  on_period_change-shown next h,
  (unfold get_period_range set_period_range in refl),
  init-set_period_range now next h.store valid r w,
  navigated-IsLinked next elsewhere h.report_match valid,
)
