-- ===== src/App/Charts/Expenses/Laws.antt =====
-- The bars of the costs and the money flow show the same amounts.
use vekst.Prelude.{
  codes, ℕ, zero, suc, ◌≡◌, refl, sym, ap, ap₂, ◌∙◌, inl, inr, List, [], ◌∷◌, ◌++◌, map, Option,
  some, if◌then◌else◌, leb, length, length-map, take, drop, Bool-cases,
}
use vekst.Prelude.Strings.{Text}
use vekst.Prelude.Result.{Result, ok, err, map_result, ◌>>=◌}
use vekst.Locale.{Locale}
use vekst.I18n.{t}
use vekst.Money.{no_data}
use vekst.Money.Currency.{exponent_of}
use vekst.Data.Report.{Report, ReportLine}
use vekst.App.Charts.Numbers.{Numbers, major, sum_from}
use vekst.App.Charts.Support.{Sliced, Other, place, sort, fold_top_n, entry, folded_entries}
use vekst.App.Charts.Lines.{cost_lines, positive_lines}
use vekst.App.Charts.Expenses.{Item, named, max_slots}
use vekst.App.Charts.Expenses
use vekst.App.Charts.MoneyFlow
use vekst.App.Charts.MoneyFlow.{NoItem, expense_lines_for, expense_nodes}

module _ (n : Numbers) where
  abbrev pub values : List (Other n) → List n.Number
  values es = map (λ e. e.value) es

  abbrev slice_values {ℓ} : {A : Type ℓ} → List (Sliced n A) → List n.Number
  slice_values xs = map (λ s. s.value) xs

  abbrev by_value {ℓ} : {A : Type ℓ} → Sliced n A → n.Number
  by_value s = s.value

  abbrev itself : n.Number → n.Number
  itself a = a

  -- Sorting the slices sorts their values.
  place-values {ℓ} :
      {A : Type ℓ} (x : Sliced n A) (ys : List (Sliced n A))
      → slice_values (place n by_value x ys) ≡ place n itself x.value (slice_values ys)
  unfolding place
  place-values x [] = refl
  place-values x (y ∷ ys) = elim (Bool-cases (n.less x.value y.value)) [
    | inl e ↦ rw e (ap (λ zs. y.value ∷ zs) (place-values x ys))
    | inr e ↦ rw e refl
  ]

  sort-values {ℓ} :
      {A : Type ℓ} (xs : List (Sliced n A))
      → slice_values (sort n by_value xs) ≡ sort n itself (slice_values xs)
  unfolding sort
  sort-values [] = refl
  sort-values (x ∷ xs) =
      place-values x (sort n by_value xs) ∙ ap (place n itself x.value) (sort-values xs)

  take-values {ℓ} :
      {A : Type ℓ} (k : ℕ) (xs : List (Sliced n A))
      → slice_values (take k xs) ≡ take k (slice_values xs)
  take-values zero xs = refl
  take-values (suc k) [] = refl
  take-values (suc k) (x ∷ xs) = ap (λ zs. x.value ∷ zs) (take-values k xs)

  drop-values {ℓ} :
      {A : Type ℓ} (k : ℕ) (xs : List (Sliced n A))
      → slice_values (drop k xs) ≡ drop k (slice_values xs)
  drop-values zero xs = refl
  drop-values (suc k) [] = refl
  drop-values (suc k) (x ∷ xs) = drop-values k xs

  -- What is drawn of a list of values alone.
  folded_values : ℕ → List n.Number → List n.Number
  folded_values limit vs =
      let sorted = sort n itself vs in
      if leb (length sorted) limit
      then sorted
      else take limit sorted ++ sum_from n n.zero_number (drop limit sorted) ∷ []

  map-entry-values {ℓ} :
      {A : Type ℓ} (xs : List (Sliced n A)) → values (map (entry n) xs) ≡ slice_values xs
  map-entry-values [] = refl
  map-entry-values (x ∷ xs) = ap (λ zs. x.value ∷ zs) (map-entry-values xs)

  append-values {ℓ} :
      {A : Type ℓ} (xs : List (Sliced n A)) (o : Other n)
      → values (map (entry n) xs ++ o ∷ []) ≡ slice_values xs ++ o.value ∷ []
  append-values [] o = refl
  append-values (x ∷ xs) o = ap (λ zs. x.value ∷ zs) (append-values xs o)

  fold-values {ℓ} :
      {A : Type ℓ} (items : List (Sliced n A)) (limit : ℕ) (label : Option Text)
      → values (folded_entries n (fold_top_n n items limit label))
        ≡ folded_values limit (slice_values items)
  unfolding fold_top_n folded_values
  fold-values items limit label =
      let sorted = sort n by_value items in
      let same : length (sort n itself (slice_values items)) ≡ length sorted =
        ap length (sym (sort-values items)) ∙ length-map sorted by_value in
      elim (Bool-cases (leb (length sorted) limit)) [
        | inl e ↦ rw (same, e) (map-entry-values sorted ∙ sort-values items)
        | inr e ↦
            rw (same, e)
              (append-values (take limit sorted) _
                ∙ ap₂ ◌++◌ (take-values limit sorted ∙ ap (take limit) (sort-values items)) (
                    ap (λ vs. sum_from n n.zero_number vs ∷ [])
                      (drop-values limit sorted ∙ ap (drop limit) (sort-values items))))
      ]

  abbrev map_ok {ℓ κ} : {A : Type ℓ} {B : Type κ} → (A → B) → Result A → Result B
  map_ok f r = do a ← r; ok (f a)

  cons-values {ℓ} :
      {A : Type ℓ} (x : Result (Sliced n A)) (r : Result (List (Sliced n A)))
      → map_ok slice_values (do s ← x; rest ← r; ok (s ∷ rest))
        ≡ (do v ← map_ok by_value x; vs ← map_ok slice_values r; ok (v ∷ vs))
  cons-values (ok s) (ok rest) = refl
  cons-values (ok s) (err e) = refl
  cons-values (err e) r = refl

  map_result-values {ℓ} :
      {A : Type ℓ} (slice : ReportLine → Result (Sliced n A))
      (amount : ReportLine → Result n.Number)
      → ((l : ReportLine) → map_ok by_value (slice l) ≡ amount l)
      → (ls : List ReportLine) → map_ok slice_values (map_result slice ls) ≡ map_result amount ls
  unfolding map_result
  map_result-values slice amount h [] = refl
  map_result-values slice amount h (l ∷ ls) =
      cons-values (slice l) (map_result slice ls)
      ∙ ap₂ (λ x r. do v ← x; vs ← r; ok (v ∷ vs)) (h l) (map_result-values slice amount h ls)

  slice-values {ℓ} :
      {A : Type ℓ} (label : Option Text) (item : A) (r : Result n.Number)
      → map_ok by_value (do v ← r; ok (record { label = label; value = v; item = item })) ≡ r
  slice-values label item (ok v) = refl
  slice-values label item (err x) = refl

  abbrev amount : ℕ → ReportLine → Result n.Number
  amount e l = major n l.total.minor_units e

  fold_result-values {ℓ} :
      {A : Type ℓ} (limit : ℕ) (label : Option Text) (items : Result (List (Sliced n A)))
      → map_ok values (do xs ← items; ok (folded_entries n (fold_top_n n xs limit label)))
        ≡ map_ok (folded_values limit) (map_ok slice_values items)
  fold_result-values limit label (ok xs) = ap (λ vs. ok vs) (fold-values xs limit label)
  fold_result-values limit label (err e) = refl

  -- For a currency with a known exponent the bars of the costs and the nodes of the money flow have the same
  -- amounts in the same order, and where the one throws, the other does.
  pub named-expense_nodes :
      (report : Report) (e : ℕ) (locale : Locale)
      → exponent_of report.currency_code ≡ some e
      → map_ok values (named n report locale) ≡ map_ok values (expense_nodes n report e locale)
  unfolding named expense_nodes expense_lines_for
  named-expense_nodes report e locale h = rw h (go (positive_lines (cost_lines report.lines)))
    where
      go :
          (r : Result (List ReportLine))
          → map_ok values (do
            ls ← r
            xs ← map_result (Expenses.slice_of n (some e) locale) ls
            ok (folded_entries n (fold_top_n n xs 8 (some no_data))))
            ≡ map_ok values (do
              xs ← (do ls ← r; map_result (MoneyFlow.slice_of n e locale) ls)
              ok (folded_entries n (fold_top_n n xs 8 (t (codes "chart.moneyflow.other") locale))))
      go (ok ls) =
          fold_result-values 8 (some no_data) (map_result (Expenses.slice_of n (some e) locale) ls)
          ∙ ap (map_ok (folded_values 8)) (
              map_result-values (Expenses.slice_of n (some e) locale) (amount e)
                (λ l. slice-values _ _ (amount e l)) ls
              ∙ sym (
                  map_result-values (MoneyFlow.slice_of n e locale) (amount e)
                    (λ l. slice-values _ _ (amount e l)) ls))
          ∙ sym (
              fold_result-values 8 (t (codes "chart.moneyflow.other") locale)
                (map_result (MoneyFlow.slice_of n e locale) ls))
      go (err x) = refl
