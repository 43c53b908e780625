-- ===== src/App/Charts/Periods/Magnitudes.antt =====
-- web/src/app/charts/RevenueExpenseChart.tsx: the expenses of a month are drawn by their size.
use vekst.Prelude.{
  ℕ, zero, suc, ◌+◌, ◌≤◌, ◌≡◌, refl, ap, ◌∙◌, ◌⊎◌, inl, inr, ℤ, pos, negsuc, List, [], ◌∷◌, Option,
  none, some, length, get_elem?, arith,
}
use vekst.Prelude.Strings.{Text}
use vekst.Prelude.Decimal.{int_text, nat_text}
use vekst.Prelude.Lemmas.{All, big_int-int_text, IsDigits, nat_text-IsDigits, nat_text-cons}
use vekst.Prelude.Returns.{Returns, Returns-bind}
use vekst.Locale.{Locale}
use vekst.Money.{Money}
use vekst.Money.Currency.{exponent_of, exponent_of-le}
use vekst.Data.Report.{Report, ReportLine, value_at}
use vekst.App.Charts.Numbers.{Numbers, IsOrdered, major, major_or_zero}
use vekst.App.Charts.Lines.{revenue_line}
use vekst.App.Charts.Lines.Laws.{revenue_line-All}
use vekst.App.Charts.Periods.{
  RevenueExpenseRow, without_sign, text_or, revenue_expense_rows_from, revenue_expense_rows,
}
use vekst.App.Charts.Periods.Laws.{
  IsAmount, IsSized, text_or-Returns, major_or_zero-Returns, get_elem?-All, positive-IsSized,
  zero-IsSized,
}

abbrev pub magnitude : ℤ → ℕ
magnitude (pos m) = m
magnitude (negsuc m) = suc m

not_minus : (m : ℕ) → without_sign (nat_text m) ≡ nat_text m
not_minus m =
    let (c, s, e) = nat_text-cons m in
    let (h, _) : IsDigits (c ∷ s) = rw e at (nat_text-IsDigits m) in rw e (ground (arith, h))

without_sign-int_text : (z : ℤ) → without_sign (int_text z) ≡ int_text (pos (magnitude z))
unfolding int_text
without_sign-int_text (pos m) = not_minus m
without_sign-int_text (negsuc m) = refl

value_of :
    (ms : List Money) (i : ℕ)
    → All IsAmount ms
    → (get_elem? ms i ≡ none) ⊎ ((m : Money) × (get_elem? ms i ≡ some m) × IsAmount m)
value_of [] i h = inl refl
value_of (m ∷ ms) zero h = inr (m, refl, h.0)
value_of (m ∷ ms) (suc i) h = value_of ms i h.1

value_at-IsAmount :
    (l : Option ReportLine) (i : ℕ)
    → ((r : ReportLine) → l ≡ some r → All IsAmount r.values)
    → IsAmount (value_at l i)
unfolding int_text nat_text
value_at-IsAmount none i h = (pos 0, refl)
value_at-IsAmount (some r) i h = elim (value_of r.values i (h r refl)) [
  | inl e ↦ rw e (pos 0, refl)
  | inr (m, e, a) ↦ rw e a
]

module _ (n : Numbers) (o : IsOrdered n) where
  size-IsSized : (m e : ℕ) → e ≤ 4 → IsSized n (n.of_units (pos m) e)
  size-IsSized zero e h = rw (o.of_units_zero e) (zero-IsSized n o)
  size-IsSized (suc m) e h =
      positive-IsSized n o _ (o.of_units_pos (pos (suc m)) e h (ground arith))

  expenses-IsSized :
      (code : Text) (m : Money)
      → IsAmount m
      → Returns (IsSized n) (major_or_zero n (exponent_of code) (without_sign m.minor_units))
  unfolding major
  expenses-IsSized code m (z, h) = go (exponent_of code) refl
    where
      go :
          (e : Option ℕ)
          → exponent_of code ≡ e
          → Returns (IsSized n) (major_or_zero n e (without_sign m.minor_units))
      go none k = zero-IsSized n o
      go (some e) k =
          rw (h, without_sign-int_text z, big_int-int_text (pos (magnitude z)))
            (size-IsSized (magnitude z) e (exponent_of-le code k))

  abbrev IsDrawn : ℕ → List (RevenueExpenseRow n) → Type 0
  IsDrawn k rows = (length rows ≡ k) × All (λ r. IsSized n r.expenses) rows

  -- The amount of a magnitude is one again.
  without_sign-IsAmount :
      (m : Money)
      → IsAmount m
      → IsAmount
          (record { minor_units = without_sign m.minor_units; currency_code = m.currency_code })
  without_sign-IsAmount m (z, h) = (pos (magnitude z), ap without_sign h ∙ without_sign-int_text z)

  rows_from-IsDrawn :
      (report : Report) (locale : Locale) (i : ℕ) (periods : List Text)
      → i + length periods ≤ length report.expenses_by_period
      → All IsAmount report.expenses_by_period
      → All (λ l. All IsAmount l.values) report.lines
      → Returns (IsDrawn (length periods)) (revenue_expense_rows_from n report locale i periods)
  unfolding revenue_expense_rows_from
  rows_from-IsDrawn report locale i [] h k q = (refl, tt)
  rows_from-IsDrawn report locale i (period ∷ periods) h k q =
      let e = exponent_of report.currency_code in
      let revenue = value_at (revenue_line report.lines) i in
      let a =
        value_at-IsAmount (revenue_line report.lines) i
          (λ r x. revenue_line-All (λ l. All IsAmount l.values) report.lines q x) in
      let (m, p, z) = get_elem?-All IsAmount report.expenses_by_period i k (omega arith) in
      let size : Money = record {
        minor_units = without_sign m.minor_units;
        currency_code = m.currency_code;
      } in
      let drawn = IsDrawn (suc (length periods)) in
      rw p (
        Returns-bind (λ _. Unit) drawn (major_or_zero n e revenue.minor_units) _
          (major_or_zero-Returns n e revenue a)
          (λ _ _.
            Returns-bind (IsSized n) drawn (major_or_zero n e size.minor_units) _
              (expenses-IsSized report.currency_code m z)
              (λ v sized.
                Returns-bind (λ _. Unit) drawn (text_or [] e revenue.minor_units locale) _
                  (text_or-Returns [] e revenue locale a)
                  (λ _ _.
                    Returns-bind (λ _. Unit) drawn (text_or [] e size.minor_units locale) _
                      (text_or-Returns [] e size locale (without_sign-IsAmount m z))
                      (λ _ _.
                        Returns-bind (IsDrawn (length periods)) drawn
                          (revenue_expense_rows_from n report locale (suc i) periods) _
                          (rows_from-IsDrawn report locale (suc i) periods (omega arith) k q)
                          (λ rest r. (ap suc r.0, (sized, r.1))))))))

  -- Where there are expenses for every period, there is a row for every period, and what is drawn of the
  -- expenses is not below zero.
  pub revenue_expense_rows-IsSized :
      (report : Report) (locale : Locale)
      → length report.periods ≤ length report.expenses_by_period
      → All IsAmount report.expenses_by_period
      → All (λ l. All IsAmount l.values) report.lines
      → Returns
          (λ rows. (length rows ≡ length report.periods) × All (λ r. IsSized n r.expenses) rows)
          (revenue_expense_rows n report locale)
  unfolding revenue_expense_rows
  revenue_expense_rows-IsSized report locale h k q =
      rows_from-IsDrawn report locale 0 report.periods (omega arith) k q
