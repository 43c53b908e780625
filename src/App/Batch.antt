-- ===== src/App/Batch.antt =====
-- web/src/app/BatchScreen.tsx: one import batch, its rows, its errors, and the file of errors.
pub mod Csv
pub mod Rejection
use vekst.Prelude.{
  codes, ℕ, ℤ, ◌-◌, ◌==◌, List, [], ◌∷◌, ◌++◌, map, Option, none, some, ltb, if◌then◌else◌, length,
  take,
}
use vekst.Prelude.Strings.{Text, join}
use vekst.Prelude.Decimal.{int_text}
use vekst.Prelude.Result.{Result, ok, map_result, ◌>>=◌}
use vekst.Locale.{Locale}
use vekst.I18n.{t}
use vekst.Money.{Money, format_minor_units, no_data}
use vekst.Money.Currency.{exponent_of}
use vekst.Data.Imports.{BatchDetail, BatchRow, BatchCounts, BalanceCheck, ValidationError}

-- ${…} of what may be `undefined`
abbrev template : Option Text → Text
template none = codes "undefined"
template (some s) = s

-- detail ?? ""
abbrev pub or_empty : Option Text → Text
or_empty none = []
or_empty (some s) = s

-- replaceAll('"', '""')
abbrev pub escape : Text → Text
escape [] = []
escape (c ∷ s) = let rest = escape s in if c == b'"' then b'"' ∷ b'"' ∷ rest else c ∷ rest

abbrev pub error_line : ValidationError → Text
error_line e =
    int_text e.file_line ++ b',' ∷ e.code ++ b',' ∷ b'"' ∷ escape (or_empty e.detail) ++ b'"' ∷ []

-- header + body
unfoldable pub errors_csv : Locale → List ValidationError → Text
unfolding int_text join t
errors_csv locale errors =
    (template (t (codes "batch.errors.line") locale) ++ codes ",code,detail\n")
    ++ join (codes "\n") (map error_line errors)

pub record Download : Type 0 where
  pub name : Text
  pub type_ : Text
  pub text : Text

-- The file that the browser is given.
unfoldable pub download : BatchDetail → Locale → Download
unfolding errors_csv
download d locale = record {
  name = d.batch.file_name ++ codes ".errors.csv";
  type_ = codes "text/csv";
  text = errors_csv locale d.errors;
}

-- fmt
unfoldable pub fmt : Money → Locale → Result Text
unfolding exponent_of format_minor_units
fmt m locale = elim (exponent_of m.currency_code) [
  | none ↦ ok no_data
  | some e ↦ format_minor_units m.minor_units e locale
]

-- SHOWN
abbrev pub max_shown : ℕ
max_shown = 200

pub record ErrorView : Type 0 where
  pub line : ℤ
  -- `none` is `undefined`, for which nothing is printed
  pub message : Option Text
  pub detail : Text

unfoldable pub error_view : Locale → ValidationError → ErrorView
unfolding t
error_view locale e = record {
  line = e.file_line;
  message = t (codes "error." ++ e.code) locale;
  detail = or_empty e.detail;
}

pub record ErrorsView : Type 0 where
  pub shown : List ErrorView
  -- how many more there are, where there are more
  pub more : Option ℕ

unfoldable pub errors_view : Locale → List ValidationError → ErrorsView
unfolding error_view
errors_view locale errors = record {
  shown = map (error_view locale) (take max_shown errors);
  more = if ltb max_shown (length errors) then some (length errors - max_shown) else none;
}

pub record RowView : Type 0 where
  pub line_no : ℤ
  pub booked_on : Text
  pub title : Text
  pub category : Option Text
  pub amount : Text

-- a || b
abbrev or_text : Text → Text → Text
or_text [] b = b
or_text (c ∷ a) b = c ∷ a

abbrev category_of : Text → Text → Locale → Option Text
category_of [] name locale = t (codes "batch.rows.unclassified") locale
category_of (c ∷ code) name locale = some name

unfoldable pub row_view : Locale → BatchRow → Result RowView
unfolding fmt t
row_view locale row = do
  amount ← fmt row.amount locale
  ok (record {
    line_no = row.line_no;
    booked_on = row.booked_on;
    title = or_text row.counterparty_raw row.description;
    category = category_of row.category_code row.category_name locale;
    amount = amount;
  })

-- data.rejectionReason ? …
unfoldable pub rejection : Option Text → Locale → Option (Option Text)
unfolding t
rejection none locale = none
rejection (some []) locale = none
rejection (some (c ∷ reason)) locale = some (t (codes "batch.rejected." ++ c ∷ reason) locale)

-- The counts and the balance check, in the order of the screen, by their keys.
abbrev pub counts_view : BatchCounts → List (Text × ℤ)
counts_view c =
    (codes "imports.counts.imported", c.rows_imported)
    ∷ (codes "imports.counts.duplicates", c.duplicates_skipped)
    ∷ (codes "imports.counts.transfers", c.internal_transfers_found)
    ∷ []

abbrev balance_amounts : BalanceCheck → List (Text × Money)
balance_amounts b =
    (codes "batch.balance.opening", b.opening)
    ∷ (codes "batch.balance.movements", b.movements)
    ∷ (codes "batch.balance.closing", b.closing)
    ∷ (codes "batch.balance.declared", b.declared)
    ∷ []

abbrev labelled : Locale → Text × Money → Result (Text × Text)
labelled locale (key, m) = do s ← fmt m locale; ok (key, s)

unfoldable pub balance_view : BalanceCheck → Locale → Result (List (Text × Text))
unfolding fmt map_result
balance_view b locale = map_result (labelled locale) (balance_amounts b)
