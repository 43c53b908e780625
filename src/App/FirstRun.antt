-- ===== src/App/FirstRun.antt =====
-- web/src/app/FirstRunScreen.tsx: the form that creates an organisation.
pub mod Laws
use vekst.Prelude.{
  codes, ℕ, suc, List, [], ◌∷◌, ◌++◌, Option, none, some, Bool, true, false, ◌||◌, ◌≡◌,
  if◌then◌else◌, length, ◌==◌,
}
use vekst.Prelude.Strings.{Text, text_eq, trim}
use vekst.Prelude.Result.{Result, ok, err, Failure, create_organisation}
use vekst.Locale.{Locale}
use vekst.I18n.{t, auth_error_message}
use vekst.Wire.Review.{CreateOrganizationRequest}
use vekst.Data.Review.{CreatedOrganisation}

pub record Market : Type 0 where
  pub country : Text
  pub base_currency : Text
  pub label_key : Text

abbrev belarus : Market
belarus = record {
  country = codes "BY";
  base_currency = codes "BYN";
  label_key = codes "firstRun.market.by";
}

-- MARKETS
abbrev pub markets : List Market
markets =
    belarus
    ∷ record {
      country = codes "KZ";
      base_currency = codes "KZT";
      label_key = codes "firstRun.market.kz";
    }
    ∷ record {
      country = codes "PL";
      base_currency = codes "PLN";
      label_key = codes "firstRun.market.pl";
    }
    ∷ []

-- The fields, the mutation's state, the requests it made so far, how many were answered, and how often the
-- query for the current user was invalidated.
pub record Form : Type 0 where
  pub name : Text
  pub entity_name : Text
  pub market : Market
  pub is_pending : Bool
  pub error : Option Failure
  pub sent : List CreateOrganizationRequest
  pub answered : ℕ
  pub invalidated : ℕ

abbrev pub opened : Form
opened = record {
  name = [];
  entity_name = [];
  market = belarus;
  is_pending = false;
  error = none;
  sent = [];
  answered = 0;
  invalidated = 0;
}

-- MARKETS.find((m) => m.country === value) ?? the market as it is
abbrev pub find_market : Text → List Market → Market → Market
find_market value [] current = current
find_market value (m ∷ ms) current =
    let rest = find_market value ms current in if text_eq m.country value then m else rest

unfoldable pub choose_market : Text → Form → Form
unfolding text_eq
choose_market value f = record f { market = find_market value markets f.market }

abbrev request : Form → CreateOrganizationRequest
request f = record {
  name = f.name;
  country = f.market.country;
  base_currency = f.market.base_currency;
  entity_name = f.entity_name;
}

abbrev pub is_blank : Text → Bool
is_blank s = length (trim s) == 0

abbrev pub submitted : Bool → Form → Form
submitted true f = f
submitted false f = record f { is_pending = true; error = none; sent = f.sent ++ request f ∷ [] }

-- onSubmit
unfoldable pub on_submit : Form → Form
unfolding trim
on_submit f = submitted ((is_blank f.name || is_blank f.entity_name) || f.is_pending) f

-- What becomes of a request.
unfoldable pub settle : Result CreatedOrganisation → Form → Form
settle (ok o) f = record f {
  is_pending = false;
  answered = suc f.answered;
  invalidated = suc f.invalidated;
}
settle (err e) f = record f { is_pending = false; error = some e; answered = suc f.answered }

-- errorMessage: the outer `none` is `null`, the inner one `undefined`.
unfoldable pub error_message : Option Failure → Locale → Option (Option Text)
unfolding auth_error_message t
error_message none locale = none
error_message (some (create_organisation code)) locale = auth_error_message (some code) locale
error_message (some _) locale = some (t (codes "error.unknown") locale)

-- A form from when it is opened: what is typed and chosen, submissions, and answers to a request under way.
pub data Reached : Form → Type 0 where
  start : Reached opened
  type_name : {f : Form} (v : Text) → Reached f → Reached (record f { name = v })
  type_entity : {f : Form} (v : Text) → Reached f → Reached (record f { entity_name = v })
  choose : {f : Form} (v : Text) → Reached f → Reached (choose_market v f)
  submit : {f : Form} → Reached f → Reached (on_submit f)
  answer :
      {f : Form} (r : Result CreatedOrganisation)
      → f.is_pending ≡ true
      → Reached f
      → Reached (settle r f)
