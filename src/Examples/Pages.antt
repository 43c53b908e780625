-- ===== src/Examples/Pages.antt =====
-- The period, the preferences and the report's link at concrete inputs.
use vekst.Prelude.{codes, refl, [], ◌∷◌, none, some, true, arith}
use vekst.Locale.{en, ru}
use vekst.Ui.Period.{Month, PeriodRange, is_period}
use vekst.Ui.Storage.{Storage}
use vekst.Ui.PeriodPreference.{init_period_range, get_period_range, set_period_range}
use vekst.Ui.PeriodPreference
use vekst.Ui.PeriodPreference.Laws.{IsRange, init_period_range-IsRange}
use vekst.Ui.Preferences.{system, dark, theme_key, init_preferences, set_theme, set_locale}
use vekst.Ui.Preferences
use vekst.Ui.Preferences.Laws.{IsApplied, here, next, choose_theme, choose_locale, Run-IsApplied}
use vekst.Router.{text, other, Search, ReportSearch, charts, validate_search}
use vekst.Router.Laws.{IsValid, validate_search-IsValid}

abbrev november : Month
november = record { year = 2026; month = 11 }

abbrev first_quarter : PeriodRange
first_quarter = record { from = codes "2026-01"; to = codes "2026-03" }

abbrev stale : Storage
stale = record {
  readable = true;
  writable = true;
  items = (codes "veekst.period.from", codes "yesterday") ∷ (theme_key, codes "neon") ∷ [];
}

abbrev period_store : PeriodPreference.Store
period_store = record { range = first_quarter; storage = stale; emitted = 0 }

first_quarter-IsRange : IsRange first_quarter
unfolding is_period
first_quarter-IsRange = (refl, refl)

init_period_range-IsRange_example :
    IsRange (get_period_range (init_period_range november period_store))
init_period_range-IsRange_example =
    init_period_range-IsRange november period_store (omega arith) (omega arith) (omega arith)
      (omega arith)

abbrev page : Preferences.Store
page = record {
  theme = system;
  locale = en;
  storage = stale;
  document = record { data_theme = none; lang = codes "en" };
  emitted = 0;
}

abbrev started : Preferences.Store
started = init_preferences (some (codes "ru-RU")) page

Run-IsApplied_example : IsApplied (set_locale ru (set_theme dark started))
Run-IsApplied_example =
    Run-IsApplied (some (codes "ru-RU")) page
      (next (next here (choose_theme dark started)) (choose_locale ru (set_theme dark started)))

abbrev odd_link : Search
odd_link = record { from = text (codes "2026-13"); to = other; view = text (codes "pie") }

in_memory-IsRange : IsRange (get_period_range period_store)
unfolding get_period_range
in_memory-IsRange = first_quarter-IsRange

validate_search-IsValid_example : IsValid (validate_search period_store odd_link)
validate_search-IsValid_example = validate_search-IsValid period_store odd_link in_memory-IsRange

abbrev link : ReportSearch
link = record { from = codes "2025-10"; to = codes "2025-12"; view = charts }

link-IsValid : IsValid link
unfolding is_period
link-IsValid = (refl, refl)
