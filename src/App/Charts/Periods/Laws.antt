-- ===== src/App/Charts/Periods/Laws.antt =====
-- The rows by month: complete, of one sign, and of the size of the amounts they stand for.
use vekst.Prelude.{
  ℕ, zero, suc, ◌+◌, ◌≤◌, ◌<◌, ◌≡◌, refl, ap, ◌⊎◌, inl, inr, ℤ, List, [], ◌∷◌, Option, none, some,
  Bool, true, false, if◌then◌else◌, length, get_elem?, arith, Bool-cases,
}
use vekst.Prelude.Strings.{Text}
use vekst.Prelude.Decimal.{int_text}
use vekst.Prelude.Lemmas.{All, big_int-int_text}
use vekst.Prelude.Result.{ok}
use vekst.Prelude.Returns.{Returns, Returns-bind, Returns-ok, Zipped, Returns-Zipped}
use vekst.Locale.{Locale}
use vekst.Money.{Money, no_data}
use vekst.Money.Currency.{exponent_of}
use vekst.Money.Figure.{format_minor_units-IsFigure}
use vekst.Ui.Period.{DateFormats, format_period_short}
use vekst.Data.Report.{Report}
use vekst.Data.Report.Cash.{CashPeriod}
use vekst.App.Charts.Numbers.{Numbers, IsOrdered, major, major_or_zero, absolute}
use vekst.App.Charts.Periods.{
  NetRow, net_row, net_units, net_rows_from, net_result_rows, text_or, CashRow, cash_row, cash_rows,
}

-- What the wire sends for an amount: the decimal text of an integer.
abbrev pub IsAmount : Money → Type 0
IsAmount m = (z : ℤ) × (m.minor_units ≡ int_text z)

pub text_or-Returns :
    (fallback : Text) (e : Option ℕ) (m : Money) (locale : Locale)
    → IsAmount m
    → Returns (λ _. Unit) (text_or fallback e m.minor_units locale)
text_or-Returns fallback none m locale h = tt
text_or-Returns fallback (some e) m locale (z, h) =
    let (out, p, _) = format_minor_units-IsFigure z e locale in rw (h, p) tt

pub get_elem?-All {ℓ κ} :
    {A : Type ℓ} (P : A → Type κ) (xs : List A) (i : ℕ)
    → All P xs
    → i < length xs
    → (x : A) × (get_elem? xs i ≡ some x) × P x
get_elem?-All P [] i h lt = elim lt [ ]
get_elem?-All P (x ∷ xs) zero h lt = (x, refl, h.0)
get_elem?-All P (x ∷ xs) (suc i) h lt = get_elem?-All P xs i h.1 (omega arith)

-- What is read of an amount where the exponent is known.
abbrev IsUnits : Option ℕ → Text → Type 0
IsUnits none units = Unit
IsUnits (some e) units = (z : ℤ) × (units ≡ int_text z)

net_units-Returns :
    (e : Option ℕ) (m : Money) → IsAmount m → Returns (IsUnits e) (net_units e (some m))
net_units-Returns none m h = tt
net_units-Returns (some e) m h = h

units-text :
    (e : Option ℕ) (units : Text) (locale : Locale)
    → IsUnits e units
    → Returns (λ _. Unit) (text_or [] e units locale)
units-text none units locale h = tt
units-text (some e) units locale (z, h) =
    let (out, p, _) = format_minor_units-IsFigure z e locale in rw (h, p) tt

module _ (n : Numbers) where
  units-major :
      (e : Option ℕ) (units : Text)
      → IsUnits e units
      → Returns (λ _. Unit) (major_or_zero n e units)
  unfolding major
  units-major none units h = tt
  units-major (some e) units (z, h) = rw (h, big_int-int_text z) tt

  abbrev pub IsSized : n.Number → Type 0
  IsSized a = n.less a n.zero_number ≡ false

  pub major_or_zero-Returns :
      (e : Option ℕ) (m : Money)
      → IsAmount m
      → Returns (λ _. Unit) (major_or_zero n e m.minor_units)
  unfolding major
  major_or_zero-Returns none m h = tt
  major_or_zero-Returns (some e) m (z, h) = rw (h, big_int-int_text z) tt

  -- A bar of a month: neither amount below zero, and one of the two is zero.
  abbrev pub IsBar : NetRow n → Type 0
  IsBar r =
      IsSized r.profit × IsSized r.loss × ((r.profit ≡ n.zero_number) ⊎ (r.loss ≡ n.zero_number))

  module _ (o : IsOrdered n) where
    pub zero-IsSized : IsSized n.zero_number
    zero-IsSized = elim (Bool-cases (n.less n.zero_number n.zero_number)) [
      | inl e ↦ o.less_asym n.zero_number n.zero_number e
      | inr e ↦ e
    ]

    pub positive-IsSized : (a : n.Number) → n.less n.zero_number a ≡ true → IsSized a
    positive-IsSized a h = o.less_asym n.zero_number a h

    net_row-IsBar : (period : Text) (a : n.Number) (text : Text) → IsBar (net_row n period a text)
    net_row-IsBar period a text = go (n.less n.zero_number a) (n.less a n.zero_number) refl refl
      where
        go :
            (p q : Bool)
            → n.less n.zero_number a ≡ p
            → n.less a n.zero_number ≡ q
            → IsSized (if p then a else n.zero_number)
              × IsSized (if q then n.negate a else n.zero_number)
              × (((if p then a else n.zero_number) ≡ n.zero_number)
                  ⊎ ((if q then n.negate a else n.zero_number) ≡ n.zero_number))
        go true true e k = absurd (cc (o.less_asym n.zero_number a e, k))
        go true false e k = (positive-IsSized a e, zero-IsSized, inr refl)
        go false true e k =
            (zero-IsSized, positive-IsSized (n.negate a) (o.negate_pos a k), inl refl)
        go false false e k = (zero-IsSized, zero-IsSized, inl refl)

    absolute-IsSized : (a : n.Number) → IsSized (absolute n a)
    absolute-IsSized a = elim (Bool-cases (n.less a n.zero_number)) [
      | inl e ↦ rw (e, absolute) (positive-IsSized (n.negate a) (o.negate_pos a e))
      | inr e ↦ rw (e, absolute) e
    ]

    abbrev IsBars : ℕ → List (NetRow n) → Type 0
    IsBars k rows = (length rows ≡ k) × All IsBar rows

    net_rows_from-IsBars :
        (f : DateFormats) (report : Report) (locale : Locale) (i : ℕ) (periods : List Text)
        → i + length periods ≤ length report.net_by_period
        → All IsAmount report.net_by_period
        → Returns (IsBars (length periods)) (net_rows_from n f report locale i periods)
    unfolding net_rows_from
    net_rows_from-IsBars f report locale i [] h k = (refl, tt)
    net_rows_from-IsBars f report locale i (period ∷ periods) h k =
        let (m, q, z) = get_elem?-All IsAmount report.net_by_period i k (omega arith) in
        let e = exponent_of report.currency_code in
        let bars = IsBars (suc (length periods)) in
        rw q (
          Returns-bind (IsUnits e) bars (net_units e (some m)) _ (net_units-Returns e m z)
            (λ units a.
              Returns-bind (λ _. Unit) bars (major_or_zero n e units) _ (units-major e units a)
                (λ amount _.
                  Returns-bind (λ _. Unit) bars (text_or [] e units locale) _
                    (units-text e units locale a)
                    (λ text _.
                      Returns-bind (IsBars (length periods)) (IsBars (suc (length periods)))
                        (net_rows_from n f report locale (suc i) periods) _
                        (net_rows_from-IsBars f report locale (suc i) periods (omega arith) k)
                        (λ rest r. (
                          ap suc r.0,
                          (net_row-IsBar (format_period_short f period locale) amount text, r.1),
                        ))))))

    -- Where the net result has an amount for every period, there is a row for every period,
    -- and in each neither the profit nor the loss is below zero, and at least one of the two
    -- is zero.
    pub net_result_rows-IsBar :
        (f : DateFormats) (report : Report) (locale : Locale)
        → length report.periods ≤ length report.net_by_period
        → All IsAmount report.net_by_period
        → Returns
            (λ rows. (length rows ≡ length report.periods) × All IsBar rows)
            (net_result_rows n f report locale)
    unfolding net_result_rows
    net_result_rows-IsBar f report locale h k =
        net_rows_from-IsBars f report locale 0 report.periods (omega arith) k

  -- The texts of a cash row are those of its amounts, and what is plotted of the money that went out is not below zero.
  abbrev pub IsCashRow : DateFormats → Report → Locale → CashPeriod → CashRow n → Type 0
  IsCashRow f report locale c r =
      let e = exponent_of report.currency_code in
      (r.period ≡ format_period_short f c.period locale)
      × IsSized r.money_out
      × (text_or no_data e c.money_in.minor_units locale ≡ ok r.in_text)
      × (text_or no_data e c.money_out.minor_units locale ≡ ok r.out_text)
      × (text_or no_data e c.net.minor_units locale ≡ ok r.net_text)

  abbrev pub IsCashAmounts : CashPeriod → Type 0
  IsCashAmounts c = IsAmount c.money_in × IsAmount c.money_out × IsAmount c.net

  cash_row-IsCashRow :
      IsOrdered n
      → (f : DateFormats) (report : Report) (locale : Locale) (c : CashPeriod) → IsCashAmounts c
      → Returns (IsCashRow f report locale c) (cash_row n f report locale c)
  unfolding cash_row
  cash_row-IsCashRow o f report locale c (h, k, l) =
      let e = exponent_of report.currency_code in
      let q = IsCashRow f report locale c in
      Returns-bind (λ _. Unit) q (major_or_zero n e c.money_in.minor_units) _
        (major_or_zero-Returns e c.money_in h)
        (λ a _.
          Returns-bind (λ _. Unit) q (major_or_zero n e c.money_out.minor_units) _
            (major_or_zero-Returns e c.money_out k)
            (λ b _.
              let (s, es, _) =
                Returns-ok (λ _. Unit) (text_or no_data e c.money_in.minor_units locale)
                  (text_or-Returns no_data e c.money_in locale h) in
              let (t, et, _) =
                Returns-ok (λ _. Unit) (text_or no_data e c.money_out.minor_units locale)
                  (text_or-Returns no_data e c.money_out locale k) in
              let (u, eu, _) =
                Returns-ok (λ _. Unit) (text_or no_data e c.net.minor_units locale)
                  (text_or-Returns no_data e c.net locale l) in
              rw (es, et, eu) (refl, absolute-IsSized o b, es, et, eu)))

  -- For amounts as the report has them a cash row is computed for each of its months, in their order: the
  -- texts are those of the signed amounts, and what is plotted for the money that went out is not
  -- below zero.
  pub cash_rows-IsCashRow :
      IsOrdered n
      → (f : DateFormats) (report : Report) (locale : Locale) → All IsCashAmounts report.cash
      → Returns (Zipped (IsCashRow f report locale) report.cash) (cash_rows n f report locale)
  unfolding cash_rows
  cash_rows-IsCashRow o f report locale h =
      Returns-Zipped (IsCashRow f report locale) IsCashAmounts (cash_row n f report locale)
        (cash_row-IsCashRow o f report locale) report.cash h
