-- ===== src/Router/Laws.antt =====
-- A link to the report always opens one.
use vekst.Prelude.{Text, codes, ◌≡◌, refl, inl, inr, true, Bool-cases}
use vekst.Prelude.Strings.{text_eq}
use vekst.Ui.Period.{is_period}
use vekst.Ui.PeriodPreference.{Store, get_period_range}
use vekst.Ui.PeriodPreference.Laws.{IsRange}
use vekst.Router.{
  Unknown, text, other, Search, ReportView, table, charts, ReportSearch, pick, view_of,
  validate_search,
}

abbrev pub view_text : ReportView → Text
view_text table = codes "table"
view_text charts = codes "charts"

-- The parameters as the router writes them into the URL.
abbrev pub to_search : ReportSearch → Search
to_search r = record { from = text r.from; to = text r.to; view = text (view_text r.view) }

abbrev pub IsValid : ReportSearch → Type 0
IsValid r = (is_period r.from ≡ true) × (is_period r.to ≡ true)

pick-IsPeriod : (v : Unknown) (d : Text) → is_period d ≡ true → is_period (pick v d) ≡ true
pick-IsPeriod other d h = h
pick-IsPeriod (text v) d h = elim (Bool-cases (is_period v)) [ inl e ↦ rw e e | inr e ↦ rw e h ]

pick-text : (v d : Text) → is_period v ≡ true → pick (text v) d ≡ v
pick-text v d h = rw h

view_of-view_text : (v : ReportView) → view_of (text (view_text v)) ≡ v
unfolding text_eq
view_of-view_text table = refl
view_of-view_text charts = refl

-- Whatever the URL says, the report is asked for a range of two months, if the range in memory is one.
pub validate_search-IsValid :
    (store : Store) (search : Search)
    → IsRange (get_period_range store)
    → IsValid (validate_search store search)
unfolding validate_search
validate_search-IsValid store search h =
    (pick-IsPeriod search.from _ h.0, pick-IsPeriod search.to _ h.1)

-- A link that names valid months and a view is about those: the range in memory has no say. So what the
-- router writes back into the URL is read again as it is.
pub validate_search-to_search :
    (store : Store) (r : ReportSearch) → IsValid r → validate_search store (to_search r) ≡ r
unfolding validate_search
validate_search-to_search store r h = λ i. record {
  from = pick-text r.from (get_period_range store).from h.0 i;
  to = pick-text r.to (get_period_range store).to h.1 i;
  view = view_of-view_text r.view i;
}
