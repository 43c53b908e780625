-- ===== src/App/Charts/MoneyFlow/Laws.antt =====
-- The picture of the money flow: what every graph that is drawn has.
use mathlib.Core.List.{Mem, mem-cons_self, mem-cons_of_mem}
use vekst.Prelude.{
  ℕ, suc, ◌≤◌, ◌≡◌, refl, ap, ◌∙◌, inl, inr, ℤ, pos, codes, List, [], ◌∷◌, ◌++◌, map, Option, none,
  ◌⊎◌, some, Bool, true, false, not, length, length-append, length-map, arith, Bool-cases,
}
use vekst.Prelude.Int.{ltb_ℤ}
use vekst.Prelude.Strings.{Text}
use vekst.Prelude.Decimal.{big_int}
use vekst.Prelude.Lemmas.{All, All-append, All-imp}
use vekst.Prelude.Result.{ok, map_result}
use vekst.Prelude.Returns.{Returns, Returns-bind, Returns-map_result}
use vekst.Locale.{Locale}
use vekst.I18n.{t}
use vekst.Money.Currency.{exponent_of, exponent_of-le}
use vekst.Data.Report.{Report, ReportLine}
use vekst.App.Charts.Numbers.{Numbers, IsOrdered, major, sum_from}
use vekst.App.Charts.Support.{Other}
use vekst.App.Charts.Support.Positive.{IsPositive, IsPositiveSlice}
use vekst.App.Charts.Support.Entries.{IsPositiveEntry, IsBounded, folded_entries-IsBounded}
use vekst.App.Charts.Lines.{cost_lines, positive_lines, revenue_line}
use vekst.App.Charts.Lines.Laws.{
  HasUnits, HasCost, positive_lines-HasCost, cost_lines-All, revenue_line-All,
}
use vekst.App.Charts.MoneyFlow.{
  Node, Link, Graph, slice_of, expense_lines_for, expense_nodes, slot_nodes, net_nodes, net_links,
  draw, graph_of, graph, graph_from, zero_revenue,
}

module _ (n : Numbers) where
  -- A graph that can be drawn: a positive amount on every link, ends that are nodes, and a bounded size.
  abbrev names : Graph n → List (Option Text)
  names g = map (λ x. x.name) g.nodes

  abbrev pub IsFlow : Graph n → Type 0
  IsFlow g =
      All (λ l. IsPositive n l.value) g.links
      × All (λ l. Mem l.source (names g) × Mem l.target (names g)) g.links
      × (length g.nodes ≡ suc (length g.links))
      × (length g.links ≤ 11)

  length-slot_nodes :
      (token : Text → Text) (i : ℕ) (es : List (Other n))
      → length (slot_nodes n token i es) ≡ length es
  length-slot_nodes token i [] = refl
  length-slot_nodes token i (e ∷ es) = omega (arith, length-slot_nodes token (suc i) es)

  IsEnd : List (Option Text) → Link n → Type 0
  IsEnd ns l = Mem l.source ns × Mem l.target ns

  labels-Mem :
      (token : Text → Text) (i : ℕ) (es : List (Other n)) (rest : List Node)
      → All (λ e. Mem e.label (map (λ x. x.name) (slot_nodes n token i es ++ rest))) es
  labels-Mem token i [] rest = tt
  labels-Mem token i (e ∷ es) rest = (
    mem-cons_self,
    All-imp (λ x. Mem x.label (map (λ y. y.name) (slot_nodes n token (suc i) es ++ rest))) _ es
        (λ x h. mem-cons_of_mem e.label h) (labels-Mem token (suc i) es rest),
  )

  abbrev link_to : Option Text → Other n → Link n
  link_to source e = record { source = source; target = e.label; value = e.value }

  map-link-All :
      (ns : List (Option Text)) (source : Option Text) (es : List (Other n))
      → Mem source ns
      → All (λ e. Mem e.label ns) es
      → All (λ l. Mem l.source ns × Mem l.target ns) (map (link_to source) es)
  map-link-All ns source [] h k = tt
  map-link-All ns source (e ∷ es) h k = ((h, k.0), map-link-All ns source es h k.1)

  map-link-IsPositive :
      (source : Option Text) (es : List (Other n))
      → All (IsPositiveEntry n) es
      → All (λ l. IsPositive n l.value) (map (link_to source) es)
  map-link-IsPositive source [] h = tt
  map-link-IsPositive source (e ∷ es) h = (h.0, map-link-IsPositive source es h.1)

  -- The link of what is left, which is drawn if it is positive.
  net_links-All :
      (b : Bool) (source net : Option Text) (value : n.Number) (ns : List (Option Text))
      → (b ≡ true → IsPositive n value × Mem source ns × Mem net ns)
      → All (λ l. IsPositive n l.value) (net_links n b source net value)
        × All (λ l. Mem l.source ns × Mem l.target ns) (net_links n b source net value)
  net_links-All true source net value ns h = (((h refl).0, tt), (((h refl).1, (h refl).2), tt))
  net_links-All false source net value ns h = (tt, tt)

  net-Mem :
      (token : Text → Text) (net : Option Text) (xs : List Node) (b : Bool)
      → b ≡ true
      → Mem net (map (λ x. x.name) (xs ++ net_nodes n token b net))
  net-Mem token net [] true h = mem-cons_self
  net-Mem token net (x ∷ xs) true h = mem-cons_of_mem x.name (net-Mem token net xs true h)
  net-Mem token net xs false h = absurd (cc h)

  length-net :
      (token : Text → Text) (b : Bool) (source net : Option Text) (value : n.Number)
      → length (net_nodes n token b net) ≡ length (net_links n b source net value)
  length-net token true source net value = refl
  length-net token false source net value = refl

  length-net_links :
      (b : Bool) (source net : Option Text) (value : n.Number)
      → length (net_links n b source net value) ≤ 1
  length-net_links true source net value = omega arith
  length-net_links false source net value = omega arith

  draw-IsFlow :
      (token : Text → Text) (revenue total_in net : Option Text) (total : n.Number)
      (es : List (Other n))
      → IsPositive n total
      → All (IsPositiveEntry n) es
      → length es ≤ 9
      → IsFlow (draw n token revenue total_in net total es)
  unfolding draw
  draw-IsFlow token revenue total_in net total es h k bound =
      let rest = n.sub total (sum_from n n.zero_number (map (λ e. e.value) es)) in
      let b = n.less n.zero_number rest in
      let extra = net_nodes n token b net in
      let slots = slot_nodes n token 0 es in
      let ns : List (Option Text) = revenue ∷ total_in ∷ map (λ x. x.name) (slots ++ extra) in
      let left = net_links n b total_in net rest in
      let both = net_links-All b total_in net rest ns (λ e. (
        e,
        mem-cons_of_mem revenue mem-cons_self,
        mem-cons_of_mem revenue (mem-cons_of_mem total_in (net-Mem token net slots b e)),
      )) in
      let ends =
        All-imp (λ e. Mem e.label (map (λ x. x.name) (slots ++ extra))) (λ e. Mem e.label ns) es
          (λ e p. mem-cons_of_mem revenue (mem-cons_of_mem total_in p))
          (labels-Mem token 0 es extra) in
      (
        (
          h,
          All-append (λ l. IsPositive n l.value) (map (link_to total_in) es) left
              (map-link-IsPositive total_in es k) both.0,
        ),
        (
          (mem-cons_self, mem-cons_of_mem revenue mem-cons_self),
          All-append (λ l. Mem l.source ns × Mem l.target ns) (map (link_to total_in) es) left
              (map-link-All ns total_in es (mem-cons_of_mem revenue mem-cons_self) ends) both.1,
        ),
        omega (
          arith,
          length-append slots extra,
          length-append (map (link_to total_in) es) left,
          length-map es (link_to total_in),
          length-slot_nodes token 0 es,
          length-net token b total_in net rest,
        ),
        omega (
          arith,
          bound,
          length-append (map (link_to total_in) es) left,
          length-map es (link_to total_in),
          length-net_links b total_in net rest,
        ),
      )

  slice_of-IsPositive :
      IsOrdered n
      → (e : ℕ) (locale : Locale) → e ≤ 4
      → (l : ReportLine) → HasCost l
      → Returns (IsPositiveSlice n) (slice_of n e locale l)
  unfolding major
  slice_of-IsPositive o e locale le l (z, q, p) = rw q (o.of_units_pos z e le p)

  expense_lines_for-IsPositive :
      IsOrdered n
      → (report : Report) (e : ℕ) (locale : Locale) → e ≤ 4
      → All HasUnits report.lines
      → Returns (All (IsPositiveSlice n)) (expense_lines_for n report e locale)
  unfolding expense_lines_for
  expense_lines_for-IsPositive o report e locale le h =
      Returns-bind (All HasCost) (All (IsPositiveSlice n))
        (positive_lines (cost_lines report.lines)) (λ ls. map_result (slice_of n e locale) ls)
        (positive_lines-HasCost (cost_lines report.lines) (cost_lines-All HasUnits report.lines h))
        (λ ls k.
          Returns-map_result (IsPositiveSlice n) HasCost (slice_of n e locale)
            (slice_of-IsPositive o e locale le) ls k)

  expense_nodes-bounds :
      IsOrdered n
      → (report : Report) (e : ℕ) (locale : Locale) → e ≤ 4
      → All HasUnits report.lines
      → Returns (IsBounded n 8) (expense_nodes n report e locale)
  unfolding expense_nodes
  expense_nodes-bounds o report e locale le h =
      Returns-bind (All (IsPositiveSlice n)) (IsBounded n 8) (expense_lines_for n report e locale) _
        (expense_lines_for-IsPositive o report e locale le h)
        (folded_entries-IsBounded n o 8 (t (codes "chart.moneyflow.other") locale))

  -- The reasons for no picture, and what a picture is.
  abbrev pub IsPicture : Report → Option (Graph n) → Type 0
  IsPicture report none =
      (exponent_of report.currency_code ≡ none)
      ⊎ (revenue_line report.lines ≡ none)
      ⊎ (zero_revenue report ≡ ok true)
  IsPicture report (some g) = IsFlow g × (zero_revenue report ≡ ok false)

  zero_revenue_lem :
      (report : Report) (revenue : ReportLine) (z : ℤ)
      → revenue_line report.lines ≡ some revenue
      → big_int revenue.total.minor_units ≡ some z
      → zero_revenue report ≡ ok (not (ltb_ℤ (pos 0) z))
  unfolding zero_revenue
  zero_revenue_lem report revenue z r q = rw r (rw q refl)

  graph_of-IsPicture :
      IsOrdered n
      → (token : Text → Text) (report : Report) (locale : Locale) (e : ℕ) (revenue : ReportLine)
      → e ≤ 4
      → All HasUnits report.lines
      → revenue_line report.lines ≡ some revenue
      → Returns (IsPicture report) (graph_of n token report locale e revenue)
  unfolding graph_of major
  graph_of-IsPicture o token report locale e revenue le h r =
      let (z, q) = revenue_line-All HasUnits report.lines h r in
      let reason = zero_revenue_lem report revenue z r q in
      elim (Bool-cases (ltb_ℤ (pos 0) z)) [
        | inl p ↦
            rw (q, p)
              (Returns-bind (IsBounded n 8) (IsPicture report) (expense_nodes n report e locale) _
                (expense_nodes-bounds o report e locale le h)
                (λ costs k. (
                  draw-IsFlow token _ _ _ _ _ (o.of_units_pos z e le p) k.0 k.1,
                  reason ∙ ap (λ b. ok (not b)) p,
                )))
        | inr p ↦ rw (q, p) (inr (inr (reason ∙ ap (λ b. ok (not b)) p)))
      ]

  -- For a report whose totals are all integers the graph is computed without a throw. Where nothing is
  -- drawn, the currency has no known exponent, or the report has no revenue line, or the card says that
  -- there is no revenue. What is drawn has a positive amount on every link, links only its
  -- own nodes, has one node more than links and at most eleven links; and the card does not
  -- say then that there is no revenue.
  pub graph-IsPicture :
      IsOrdered n
      → (token : Text → Text) (report : Report) (locale : Locale) → All HasUnits report.lines
      → Returns (IsPicture report) (graph n token report locale)
  unfolding graph
  graph-IsPicture o token report locale h =
      go (exponent_of report.currency_code) (revenue_line report.lines) refl refl
    where
      go :
          (x : Option ℕ) (r : Option ReportLine)
          → exponent_of report.currency_code ≡ x
          → revenue_line report.lines ≡ r
          → Returns (IsPicture report) (graph_from n token report locale x r)
      go none r e k = inl e
      go (some x) none e k = inr (inl k)
      go (some x) (some r) e k =
          graph_of-IsPicture o token report locale x r (exponent_of-le report.currency_code e) h k
