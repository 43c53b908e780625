-- ===== src/App/Charts/Trend.antt =====
-- web/src/app/charts/CategoryTrendChart.tsx: a small chart of the months for each of the largest costs.
pub mod Laws
use vekst.Prelude.{
  ℕ, suc, codes, List, [], ◌∷◌, Option, none, some, Bool, true, false, ◌||◌, if◌then◌else◌,
  get_elem?, take,
}
use vekst.Prelude.Strings.{Text}
use vekst.Prelude.Result.{Result, ok, map_result, ◌>>=◌}
use vekst.Locale.{Locale}
use vekst.Money.{Money, no_data}
use vekst.Money.Currency.{exponent_of}
use vekst.App.LineName.{line_name}
use vekst.Data.Report.{Report, ReportLine}
use vekst.App.Charts.Numbers.{Numbers, major, major_or_zero, absolute, not_zero}
use vekst.App.Charts.Support.{sort}
use vekst.App.Charts.Lines.{cost_lines}
use vekst.App.Charts.Periods.{text_or}

-- MAX_FACETS
abbrev pub max_facets : ℕ
max_facets = 8

module _ (n : Numbers) where
  pub record Point : Type 0 where
    pub period : Text
    pub value : n.Number

  pub record Facet : Type 0 where
    pub category_id : Text
    pub label : Option Text
    pub total_abs : n.Number
    pub rows : List Point
    pub texts : List Text

  -- exp === undefined ? 0 : Math.abs(Number(BigInt(…)))
  abbrev pub size_of : Option ℕ → Text → Result (n.Number)
  size_of none units = ok n.zero_number
  size_of (some e) units = do a ← major n units 0; ok (absolute n a)

  -- m && exp !== undefined ? … : 0
  abbrev pub point_value : Option ℕ → Option Money → Result (n.Number)
  point_value e none = ok n.zero_number
  point_value e (some m) = major_or_zero n e m.minor_units

  -- report.periods.map((period, i) => …), from index `i` on
  unfoldable pub points_from : Option ℕ → List Money → ℕ → List Text → Result (List Point)
  unfolding major
  points_from e values i [] = ok []
  points_from e values i (period ∷ periods) = do
    value ← point_value e (get_elem? values i)
    rest ← points_from e values (suc i) periods
    ok (record { period = period; value = value } ∷ rest)

  unfoldable pub facet_of : Report → Option ℕ → Locale → ReportLine → Result Facet
  unfolding points_from map_result major
  facet_of report e locale l = do
    total_abs ← size_of e l.total.minor_units
    rows ← points_from e l.values 0 report.periods
    texts ← map_result (λ v. text_or no_data e v.minor_units locale) l.values
    ok (record {
      category_id = l.category_id;
      label = line_name l.category_id l.label locale;
      total_abs = total_abs;
      rows = rows;
      texts = texts;
    })

  -- f.rows.some((r) => r.value !== 0)
  abbrev pub has_shape : List Point → Bool
  has_shape [] = false
  has_shape (r ∷ rows) = not_zero n r.value || has_shape rows

  abbrev pub shaped : List Facet → List Facet
  shaped [] = []
  shaped (f ∷ fs) = let rest = shaped fs in if has_shape f.rows then f ∷ rest else rest

  unfoldable pub facets : Report → Locale → Result (List Facet)
  unfolding cost_lines exponent_of facet_of map_result sort
  facets report locale = do
    fs ←
        map_result (facet_of report (exponent_of report.currency_code) locale)
          (cost_lines report.lines)
    ok (take max_facets (sort n (λ f. f.total_abs) (shaped fs)))
