-- ===== src/App/Home.antt =====
-- web/src/app/HomeScreen.tsx and Rail.tsx: the cards of the start, and the items that lead to the screens.
use vekst.Prelude.{
  codes, zero, suc, ℤ, pos, negsuc, List, [], ◌∷◌, ◌++◌, Option, none, some, length,
}
use vekst.Prelude.Strings.{Text}
use vekst.Prelude.Decimal.{nat_text, int_text}
use vekst.Prelude.Result.{Result, ok, ◌>>=◌}
use vekst.Locale.{Locale}
use vekst.I18n.{t}
use vekst.Money.{no_data}
use vekst.Money.Currency.{exponent_of}
use vekst.Data.Imports.{Batch}
use vekst.Data.Review.{ReviewSummary}
use vekst.Data.Report.{Report}
use vekst.Ui.Period.{DateFormats, Month, default_range, format_period_range}
use vekst.Ui.StateChip.{Chip, batch_state_chip}
use vekst.App.ReportScreen.Figures.{fmt, text_of}

pub record Latest : Type 0 where
  pub file_name : Text
  pub chip : Chip

-- A card leads to a screen, and below its figure may be something more.
pub record Card (Detail : Type 0) : Type 0 where
  pub to : Text
  pub title : Option Text
  pub figure : Text
  pub caption : Option Text
  pub detail : Option Detail

abbrev count_text : Option (List Batch) → Text
count_text none = no_data
count_text (some batches) = nat_text (length batches)

abbrev latest_of : Option (List Batch) → Locale → Result (Option Latest)
latest_of none locale = ok none
latest_of (some []) locale = ok none
latest_of (some (b ∷ batches)) locale = do
  chip ← batch_state_chip b.state locale
  ok (some (record { file_name = b.file_name; chip = chip }))

-- ImportsCard, given what its query has
unfoldable pub imports_card : Option (List Batch) → Locale → Result (Card Latest)
unfolding batch_state_chip t
imports_card data_ locale = do
  latest ← latest_of data_ locale
  ok (record {
    to = codes "/app/imports";
    title = t (codes "nav.imports") locale;
    figure = count_text data_;
    caption = t (codes "home.imports.count") locale;
    detail = latest;
  })

abbrev groups_text : Option ReviewSummary → Text
groups_text none = no_data
groups_text (some s) = int_text s.groups

abbrev amount_text : Option ReviewSummary → Locale → Result Text
amount_text none locale = ok no_data
amount_text (some s) locale = fmt s.amount locale

-- data && data.groups > 0
abbrev when_positive : ℤ → Text → Option Text
when_positive (pos zero) s = none
when_positive (pos (suc n)) s = some s
when_positive (negsuc n) s = none

abbrev awaiting : Option ReviewSummary → Text → Option Text
awaiting none s = none
awaiting (some summary) s = when_positive summary.groups s

-- ReviewCard
unfoldable pub review_card : Option ReviewSummary → Locale → Result (Card Text)
unfolding int_text fmt t
review_card data_ locale = do
  amount ← amount_text data_ locale
  ok (record {
    to = codes "/app/review";
    title = t (codes "nav.review") locale;
    figure = groups_text data_;
    caption = t (codes "home.review.awaiting") locale;
    detail = awaiting data_ amount;
  })

-- The digits are those of the report's currency, not of the amount's.
abbrev net_text : Option Report → Locale → Result Text
net_text none locale = ok no_data
net_text (some r) locale = text_of (exponent_of r.currency_code) r.net_total.minor_units locale

-- ReportsCard, at the month in which it is rendered
unfoldable pub reports_card : DateFormats → Month → Option Report → Locale → Result (Card Text)
unfolding exponent_of default_range format_period_range t
reports_card f now data_ locale = do
  net ← net_text data_ locale
  ok (record {
    to = codes "/app/reports/pnl";
    title = t (codes "nav.reports") locale;
    figure = net;
    caption = t (codes "home.reports.net") locale;
    detail = some (format_period_range f (default_range now).from (default_range now).to locale);
  })

-- The count beside an item: its text, and the label that is read aloud.
pub record Count : Type 0 where
  pub text : Text
  pub spoken : Text

abbrev template : Option Text → Text
template none = codes "undefined"
template (some s) = s

abbrev spoken : ℤ → Locale → Text
spoken value locale =
    int_text value ++ codes " " ++ template (t (codes "nav.awaitingReview") locale)

unfoldable pub count : ℤ → Locale → Option Count
unfolding int_text t
count (pos zero) locale = none
count (pos (suc n)) locale =
    some (record { text = int_text (pos (suc n)); spoken = spoken (pos (suc n)) locale })
count (negsuc n) locale = none

pub record Item : Type 0 where
  pub to : Text
  pub label : Option Text
  pub badge : Option Count

abbrev item : Text → Text → Locale → Item
item to key locale = record { to = to; label = t key locale; badge = none }

-- Rail
unfoldable pub rail : ℤ → Locale → List Item
unfolding count t
rail awaiting_review locale =
    item (codes "/app/home") (codes "nav.home") locale
    ∷ item (codes "/app/imports") (codes "nav.imports") locale
    ∷ record {
      to = codes "/app/review";
      label = t (codes "nav.review") locale;
      badge = count awaiting_review locale;
    }
    ∷ item (codes "/app/reports/pnl") (codes "nav.reports") locale
    ∷ []
