-- ===== src/App/Charts/Lines.antt =====
-- web/src/app/charts: the report's lines that the charts of costs are drawn from.
pub mod Laws
use vekst.Prelude.{codes, ℤ, pos, List, [], ◌∷◌, Option, none, some, Bool, not, ◌&&◌, if◌then◌else◌}
use vekst.Prelude.Int.{ltb_ℤ}
use vekst.Prelude.Strings.{Text, text_eq}
use vekst.Prelude.Decimal.{big_int}
use vekst.Prelude.Result.{Result, ok, or_throw, syntax_error, ◌>>=◌}
use vekst.Data.Report.{ReportLine}

-- !l.computed && l.categoryId !== "01"
unfoldable pub is_cost : ReportLine → Bool
unfolding text_eq
is_cost l = not l.computed && not (text_eq l.category_id (codes "01"))

-- lines.filter((l) => …)
unfoldable pub cost_lines : List ReportLine → List ReportLine
unfolding is_cost
cost_lines [] = []
cost_lines (l ∷ lines) = let rest = cost_lines lines in if is_cost l then l ∷ rest else rest

-- .filter((l) => BigInt(l.total.minorUnits) > 0n), which throws at a text that is no integer
unfoldable pub positive_lines : List ReportLine → Result (List ReportLine)
unfolding big_int
positive_lines [] = ok []
positive_lines (l ∷ lines) = do
  units ← or_throw syntax_error (big_int l.total.minor_units)
  rest ← positive_lines lines
  ok (if ltb_ℤ (pos 0) units then l ∷ rest else rest)

-- report.lines.find((l) => l.categoryId === "01")
unfoldable pub revenue_line : List ReportLine → Option ReportLine
unfolding text_eq
revenue_line [] = none
revenue_line (l ∷ lines) = if text_eq l.category_id (codes "01") then some l else revenue_line lines
