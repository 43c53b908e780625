-- ===== src/App/ReportScreen/Table/Laws.antt =====
-- The table is complete, and each of its figures leads to the transactions of its own cell.
use vekst.Prelude.{ℕ, suc, ◌≡◌, refl, List, [], ◌∷◌, Option, none, some, if◌then◌else◌, get_elem?}
use vekst.Prelude.Strings.{Text}
use vekst.Prelude.Lemmas.{All}
use vekst.Prelude.Result.{ok, map_result}
use vekst.Prelude.Returns.{Returns, Returns-bind, Returns-ok, Zipped, Returns-Zipped}
use vekst.Locale.{Locale}
use vekst.Money.{Money}
use vekst.Money.Currency.{exponent_of}
use vekst.Money.Figure.{format_minor_units-IsFigure}
use vekst.Wire.Imports.{Double}
use vekst.App.LineName.{line_name, bucket_id}
use vekst.App.LineName.Laws.{line_name_total}
use vekst.Ui.Period.{DateFormats}
use vekst.Data.Report.{ReportLine, ReportBucket}
use vekst.App.Charts.Periods.Laws.{IsAmount}
use vekst.App.ReportScreen.Figures.{fmt, text_of}
use vekst.App.ReportScreen.Table.{
  Cell, Row, BucketRow, Props, figure, figures_from, row, bucket_row, pnl_table,
}

fmt-Returns :
    (m : Money) (locale : Locale) → IsAmount m → Returns (λ s. fmt m locale ≡ ok s) (fmt m locale)
unfolding fmt
fmt-Returns m locale (z, h) = go (exponent_of m.currency_code)
  where
    go :
        (e : Option ℕ)
        → Returns (λ s. text_of e m.minor_units locale ≡ ok s) (text_of e m.minor_units locale)
    go none = refl
    go (some e) = let (out, p, _) = format_minor_units-IsFigure z e locale in rw (h, p) refl

module _ (p : Props) where
  -- The cells of a row, from the column numbered `i` on: the text is that of the value, and where the table
  -- links, the link names the row, the column's period and the range.
  abbrev pub IsCells : Text → ℕ → List Money → List Cell → Type 0
  IsCells id i [] [] = Unit
  IsCells id i (v ∷ vs) (c ∷ cs) =
      ((fmt v p.locale ≡ ok c.text)
        × (c.link ≡ (
            if p.linked
            then some (record {
              category_id = id;
              period = get_elem? p.report.periods i;
              from = p.from;
              to = p.to;
            })
            else none)))
      × IsCells id (suc i) vs cs
  IsCells id i _ _ = ⊥

  abbrev pub IsRowOf : ReportLine → Row → Type 0
  IsRowOf l r =
      (r.name ≡ line_name l.category_id l.label p.locale)
      × ((s : Text) × (r.name ≡ some s))
      × IsCells l.category_id 0 l.values r.cells
      × (fmt l.total p.locale ≡ ok r.total)

  abbrev pub IsBucketRowOf : ReportBucket → BucketRow → Type 0
  IsBucketRowOf b r =
      IsCells (bucket_id b.kind) 0 b.values r.cells × (fmt b.total p.locale ≡ ok r.total)

  abbrev pub LineAmounts : ReportLine → Type 0
  LineAmounts l = IsAmount l.total × All IsAmount l.values

  abbrev pub BucketAmounts : ReportBucket → Type 0
  BucketAmounts b = IsAmount b.total × All IsAmount b.values

  figures_from-IsCells :
      (id : Text) (i : ℕ) (vs : List Money)
      → All IsAmount vs
      → Returns (IsCells id i vs) (figures_from p id i vs)
  unfolding figures_from figure
  figures_from-IsCells id i [] h = tt
  figures_from-IsCells id i (v ∷ vs) h =
      let (s, e, _) =
        Returns-ok (λ s. fmt v p.locale ≡ ok s) (fmt v p.locale) (fmt-Returns v p.locale h.0) in
      rw e (
        Returns-bind (IsCells id (suc i) vs) (IsCells id i (v ∷ vs)) (figures_from p id (suc i) vs)
          _ (figures_from-IsCells id (suc i) vs h.1) (λ cs c. ((e, refl), c)))

  row-IsRowOf :
      (format : Locale → Double → Text) (l : ReportLine)
      → LineAmounts l
      → Returns (IsRowOf l) (row format p l)
  unfolding row
  row-IsRowOf format l h =
      let (name, named, _) = line_name_total l.category_id l.label p.locale in
      Returns-bind (IsCells l.category_id 0 l.values) (IsRowOf l)
        (figures_from p l.category_id 0 l.values) _
        (figures_from-IsCells l.category_id 0 l.values h.1)
        (λ cs c.
          Returns-bind (λ s. fmt l.total p.locale ≡ ok s) (IsRowOf l) (fmt l.total p.locale) _
            (fmt-Returns l.total p.locale h.0) (λ s e. (refl, (name, named), c, e)))

  bucket_row-IsBucketRowOf :
      (b : ReportBucket) → BucketAmounts b → Returns (IsBucketRowOf b) (bucket_row p b)
  unfolding bucket_row
  bucket_row-IsBucketRowOf b h =
      Returns-bind (IsCells (bucket_id b.kind) 0 b.values) (IsBucketRowOf b)
        (figures_from p (bucket_id b.kind) 0 b.values) _
        (figures_from-IsCells (bucket_id b.kind) 0 b.values h.1)
        (λ cs c.
          Returns-bind (λ s. fmt b.total p.locale ≡ ok s) (IsBucketRowOf b) (fmt b.total p.locale) _
            (fmt-Returns b.total p.locale h.0) (λ s e. (c, e)))

  -- A table of the amounts that the wire sends is drawn without a throw: a row for each line and for each
  -- bucket, in their order, every line with a name; each figure is the text of its own value and leads,
  -- where the table links, to its own line or bucket and to the period of its column.
  pub pnl_table-IsRowOf :
      (f : DateFormats) (format : Locale → Double → Text)
      → All LineAmounts p.report.lines
      → All BucketAmounts p.report.buckets
      → Returns
          (λ table.
            Zipped IsRowOf p.report.lines table.rows
            × Zipped IsBucketRowOf p.report.buckets table.buckets)
          (pnl_table f format p)
  unfolding pnl_table
  pnl_table-IsRowOf f format h k =
      Returns-bind (Zipped IsRowOf p.report.lines) _ (map_result (row format p) p.report.lines) _
        (Returns-Zipped IsRowOf LineAmounts (row format p) (row-IsRowOf format) p.report.lines h)
        (λ rows r.
          Returns-bind (Zipped IsBucketRowOf p.report.buckets) _
            (map_result (bucket_row p) p.report.buckets) _
            (Returns-Zipped IsBucketRowOf BucketAmounts (bucket_row p) bucket_row-IsBucketRowOf
              p.report.buckets k)
            (λ buckets b. (r, b)))
