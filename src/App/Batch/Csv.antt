-- ===== src/App/Batch/Csv.antt =====
-- The file of errors, read back by an independent reader of comma-separated values.
use vekst.Prelude.{
  codes, ℕ, ◌≡◌, refl, ap, sym, inl, inr, ℤ, pos, negsuc, suc, ==_iff, List, [], ◌∷◌, ◌++◌, map,
  Option, none, some, false, ◌==◌, if◌then◌else◌, Bool-cases, arith,
}
use mathlib.Core.Option
use mathlib.Core.List.{append_assoc, append-nil}
use vekst.Prelude.Strings.{Text, text_eq, join}
use vekst.Prelude.Decimal.{int_text, nat_text}
use vekst.Prelude.Lemmas.{All, All-imp, IsDigit, nat_text-IsDigits}
use vekst.Locale.{Locale, en, ru}
use vekst.I18n.{t}
use vekst.Data.Imports.{ValidationError}
use vekst.App.Batch.{or_empty, escape, error_line, errors_csv}

-- Where a reader stands: before a field, in one without quotes, in quotes, behind a quote in quotes.
pub data Mode : Type 0 where
  before plain quoted closed : Mode

abbrev Rows : Type 0
Rows = List (List Text)

-- What is read goes to the front of the first field of the first row.
abbrev push : ℕ → Rows → Rows
push c ((f ∷ fs) ∷ rows) = ((c ∷ f) ∷ fs) ∷ rows
push c rows = rows

abbrev end_field : Rows → Rows
end_field (r ∷ rows) = ([] ∷ r) ∷ rows
end_field [] = []

abbrev end_row : Rows → Rows
end_row rows = ([] ∷ []) ∷ rows

abbrev separator : ℕ → (Mode → Option Rows) → Option Rows → Option Rows
separator c rest other =
    if c == b','
    then Option.map end_field (rest before)
    else if c == b'\n'
    then Option.map end_row (rest before)
    else other

abbrev step : Mode → ℕ → (Mode → Option Rows) → Option Rows
step before c rest =
    if c == b'"' then rest quoted else separator c rest (Option.map (push c) (rest plain))
step plain c rest = separator c rest (Option.map (push c) (rest plain))
step quoted c rest = if c == b'"' then rest closed else Option.map (push c) (rest quoted)
step closed c rest = if c == b'"' then Option.map (push c) (rest quoted) else separator c rest none

-- A reader of rows of fields, as RFC 4180 has them, whose rows end in a line feed; `none` where a quote is
-- not closed or something follows one that is.
unfoldable pub read : Text → Mode → Option Rows
read [] quoted = none
read [] _ = some (([] ∷ []) ∷ [])
read (c ∷ s) mode = step mode c (read s)

-- A text that needs no quotes.
abbrev pub IsPlain : ℕ → Type 0
IsPlain c = ((c == b',') ≡ false) × ((c == b'\n') ≡ false) × ((c == b'"') ≡ false)

quoted_lem :
    (d rest : Text) (fs : List Text) (rows : Rows)
    → read rest closed ≡ some (([] ∷ fs) ∷ rows)
    → read (escape d ++ b'"' ∷ rest) quoted ≡ some ((d ∷ fs) ∷ rows)
unfolding read
quoted_lem [] rest fs rows h = h
quoted_lem (c ∷ d) rest fs rows h =
    let ih = quoted_lem d rest fs rows h in
    elim (Bool-cases (c == b'"')) [
      | inl e ↦ rw e (rw (ih) (ap (λ x. some (((x ∷ d) ∷ fs) ∷ rows)) (sym ((==_iff c b'"').0 e))))
      | inr e ↦ rw (e) (rw (e, ih) refl)
    ]

plain_lem :
    (s rest : Text) (r : List Text) (rows : Rows)
    → All IsPlain s
    → read rest before ≡ some (r ∷ rows)
    → read (s ++ b',' ∷ rest) plain ≡ some ((s ∷ r) ∷ rows)
unfolding read
plain_lem [] rest r rows p h = rw h
plain_lem (c ∷ s) rest r rows p h = rw ((p.0).0, (p.0).1, plain_lem s rest r rows p.1 h)

field_lem :
    (s rest : Text) (r : List Text) (rows : Rows)
    → All IsPlain s
    → read rest before ≡ some (r ∷ rows)
    → read (s ++ b',' ∷ rest) before ≡ some ((s ∷ r) ∷ rows)
unfolding read
field_lem [] rest r rows p h = rw h
field_lem (c ∷ s) rest r rows p h = rw ((p.0).2, (p.0).0, (p.0).1, plain_lem s rest r rows p.1 h)

abbrev row_of : ValidationError → List Text
row_of e = int_text e.file_line ∷ e.code ∷ or_empty e.detail ∷ []

digit-IsPlain : (c : ℕ) → IsDigit c → IsPlain c
digit-IsPlain c h = ground arith

int_text-IsPlain : (z : ℤ) → All IsPlain (int_text z)
unfolding int_text
int_text-IsPlain (pos n) = All-imp IsDigit IsPlain (nat_text n) digit-IsPlain (nat_text-IsDigits n)
int_text-IsPlain (negsuc n) = (
  (refl, refl, refl),
  All-imp IsDigit IsPlain (nat_text (suc n)) digit-IsPlain (nat_text-IsDigits (suc n)),
)

error_line-append :
    (e : ValidationError) (rest : Text)
    → error_line e ++ rest
      ≡ int_text e.file_line
        ++ b',' ∷ (e.code ++ b',' ∷ b'"' ∷ (escape (or_empty e.detail) ++ b'"' ∷ rest))
error_line-append e rest = simp append_assoc

-- A line of the file in front of what follows it.
error_line_lem :
    (e : ValidationError) (rest : Text) (rows : Rows)
    → All IsPlain e.code
    → read rest closed ≡ some (([] ∷ []) ∷ rows)
    → read (error_line e ++ rest) before ≡ some (row_of e ∷ rows)
error_line_lem e rest rows p h =
    let d = or_empty e.detail in
    let last : read (b'"' ∷ (escape d ++ b'"' ∷ rest)) before ≡ some ((d ∷ []) ∷ rows) =
      (unfold read in quoted_lem d rest [] rows h) in
    rw (error_line-append e rest) (
      field_lem (int_text e.file_line) _ _ rows (int_text-IsPlain e.file_line)
        (field_lem e.code _ _ rows p last))

newline_lem :
    (body : Text) (rows : Rows)
    → read body before ≡ some rows
    → read (b'\n' ∷ body) closed ≡ some (([] ∷ []) ∷ rows)
unfolding read
newline_lem body rows h = rw h

nothing_left : read [] closed ≡ some (([] ∷ []) ∷ [])
unfolding read
nothing_left = refl

lines_lem :
    (e : ValidationError) (es : List ValidationError)
    → All (λ x. All IsPlain x.code) (e ∷ es)
    → read (join (codes "\n") (map error_line (e ∷ es))) before ≡ some (map row_of (e ∷ es))
unfolding join
lines_lem e [] h = rw (← append-nil (error_line e)) (error_line_lem e [] [] h.0 nothing_left)
lines_lem e (f ∷ es) h =
    error_line_lem e (b'\n' ∷ join (codes "\n") (map error_line (f ∷ es))) (map row_of (f ∷ es)) h.0
      (newline_lem (join (codes "\n") (map error_line (f ∷ es))) (map row_of (f ∷ es))
        (lines_lem f es h.1))

line_label :
    (locale : Locale)
    → (label : Text) × (t (codes "batch.errors.line") locale ≡ some label) × All IsPlain label
unfolding t text_eq
line_label en = (codes "Line", refl, ground arith)
line_label ru = (codes "Строка", refl, ground arith)

header_lem :
    (label body : Text) (rows : Rows)
    → All IsPlain label
    → read body before ≡ some rows
    → read ((label ++ codes ",code,detail\n") ++ body) before
      ≡ some ((label ∷ codes "code" ∷ codes "detail" ∷ []) ∷ rows)
header_lem label body rows p h =
    let rest : read (codes "code,detail\n" ++ body) before
        ≡ some ((codes "code" ∷ codes "detail" ∷ []) ∷ rows) =
      (unfold read in rw h refl) in
    rw (append_assoc label (codes ",code,detail\n") body) (field_lem label _ _ rows p rest)

-- The file of errors read back: whatever the details hold, quotes, commas and line feeds included, a reader
-- of comma-separated values finds the heading and then for each error its line in the file,
-- its code and its detail, in their order. There is an error, and no code holds a comma, a quote or a
-- line feed.
pub read-errors_csv :
    (locale : Locale) (e : ValidationError) (es : List ValidationError)
    → All (λ x. All IsPlain x.code) (e ∷ es)
    → (label : Text) × (t (codes "batch.errors.line") locale ≡ some label)
      × (read (errors_csv locale (e ∷ es)) before
          ≡ some ((label ∷ codes "code" ∷ codes "detail" ∷ []) ∷ map row_of (e ∷ es)))
unfolding errors_csv
read-errors_csv locale e es h =
    let (label, q, p) = line_label locale in
    (label, q, rw q (header_lem label _ _ p (lines_lem e es h)))
