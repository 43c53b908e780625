-- ===== src/Money/Figure.antt =====
-- A displayed figure read back: no digit of an amount is lost between the wire and the screen.
use vekst.Prelude.{
  Text, codes, ℕ, zero, suc, ◌+◌, ◌-◌, ◌≡◌, ◌≢◌, refl, ap, ◌∙◌, Bool, true, false, ◌==◌, [], ◌∷◌,
  ◌++◌, some, ℤ, pos, negsuc, if◌then◌else◌, arith, drop, length, Bool-cases, inl, inr,
}
use mathlib.Core.List.{reverse}
use mathlib.Core.Option
use mathlib.Core.Path.{ap₂}
use vekst.Prelude.Int.{neg_ℕ}
use vekst.Prelude.Decimal.{scan, digits_of, int_text, nat_text}
use vekst.Prelude.Strings.{pad_start, starts_with}
use vekst.Prelude.Lemmas.{
  scan-nat_text, nat_text-cons, All, All-append, IsDigit, IsDigits, nat_text-IsDigits,
  digits_of-nat_text, scan-append, All-reverse,
}
use vekst.Prelude.Result.{ok}
use vekst.Locale.{Locale, en, ru}
use vekst.Money.{
  minus, decimal_separator, group_separator, group_from, group, format_integer, format_digits,
  format_minor_units, signed,
}
use vekst.Money.Strip.{strip, figure_value, strip-append, strip_digits, strip-group}
use vekst.Money.Parts.{digits_of-scan, Parts, padded-Parts}

abbrev is_negative : ℤ → Bool
is_negative (pos n) = false
is_negative (negsuc n) = true

-- What a figure on the screen is: a minus if the amount is negative, the whole part in groups, and as
-- many digits behind the locale's mark as the currency has; read back, it is the amount.
pub record IsFigure (locale : Locale) (exponent : ℕ) (z : ℤ) (out : Text) : Type 0 where
  pub whole : ℕ
  pub fraction : Text
  pub fraction_digits : IsDigits fraction
  pub fraction_length : length fraction ≡ exponent
  pub laid_out :
      out
      ≡ signed (is_negative z) (
          if exponent == 0
          then group (group_separator locale) (nat_text whole)
          else group (group_separator locale) (nat_text whole)
            ++ decimal_separator locale ∷ fraction)
  pub value : figure_value locale out ≡ some z

module _ (exponent : ℕ) (locale : Locale) where
  -- A figure without its sign.
  abbrev body : ℕ → Text → Text
  body w fraction =
      if exponent == 0
      then group (group_separator locale) (nat_text w)
      else group (group_separator locale) (nat_text w) ++ decimal_separator locale ∷ fraction

  format_digits_lem :
      (negative : Bool) (n : ℕ) (digits : Text) (p : Parts exponent n digits)
      → format_digits negative digits exponent locale
        ≡ ok (signed negative (body p.worth (drop (length digits - exponent) digits)))
  unfolding format_digits format_integer
  format_digits_lem negative n digits p = rw p.whole_read (ground (arith, p.fraction_length))

abbrev NotMinus : ℕ → Type 0
NotMinus c = c ≢ minus

digits-NotMinus : (s : Text) → IsDigits s → All NotMinus s
digits-NotMinus [] h = tt
digits-NotMinus (c ∷ s) h = (omega arith, digits-NotMinus s h.1)

group_from-NotMinus :
    (mark left : ℕ) (s : Text) → mark ≢ minus → IsDigits s → All NotMinus (group_from mark left s)
unfolding group_from
group_from-NotMinus mark left [] m h = tt
group_from-NotMinus mark zero (c ∷ s) m h = (m, (omega arith, group_from-NotMinus mark 2 s m h.1))
group_from-NotMinus mark (suc left) (c ∷ s) m h =
    (omega arith, group_from-NotMinus mark left s m h.1)

group-NotMinus : (mark : ℕ) (s : Text) → mark ≢ minus → IsDigits s → All NotMinus (group mark s)
unfolding group
group-NotMinus mark s m h =
    All-reverse NotMinus (group_from mark 3 (reverse s))
      (group_from-NotMinus mark 3 (reverse s) m (All-reverse IsDigit s h))

figure_value_unsigned :
    (locale : Locale) (s : Text)
    → All NotMinus s
    → figure_value locale s ≡ Option.map pos (digits_of 10 (strip locale s))
unfolding figure_value
figure_value_unsigned locale [] h = unfold strip digits_of in refl
figure_value_unsigned locale (c ∷ s) h = ground (arith, h.0)

marks-NotMinus :
    (locale : Locale) → (group_separator locale ≢ minus) × (decimal_separator locale ≢ minus)
unfolding group_separator decimal_separator
marks-NotMinus en = omega arith
marks-NotMinus ru = omega arith

strip-decimal :
    (locale : Locale) (s : Text) → strip locale (decimal_separator locale ∷ s) ≡ strip locale s
unfolding strip
strip-decimal locale s = ground arith

body-NotMinus :
    (exponent : ℕ) (locale : Locale) (w : ℕ) (fraction : Text)
    → IsDigits fraction
    → All NotMinus (body exponent locale w fraction)
body-NotMinus exponent locale w fraction h =
    let (g, d) = marks-NotMinus locale in
    let whole = group-NotMinus (group_separator locale) (nat_text w) g (nat_text-IsDigits w) in
    elim (Bool-cases (exponent == 0)) [
      | inl e ↦ rw e whole
      | inr e ↦ rw e (All-append NotMinus _ _ whole (d, digits-NotMinus fraction h))
    ]

digits_of-append : (w : ℕ) (s : Text) → digits_of 10 (nat_text w ++ s) ≡ scan 10 w s
digits_of-append w s =
    let (c, t, e) = nat_text-cons w in
    digits_of-scan (nat_text w ++ s) (rw e (omega arith))
    ∙ scan-append 0 (nat_text w) s (scan-nat_text w)

strip-body :
    (exponent : ℕ) (locale : Locale) (n w : ℕ) (fraction : Text)
    → IsDigits fraction
    → length fraction ≡ exponent
    → scan 10 w fraction ≡ some n
    → digits_of 10 (strip locale (body exponent locale w fraction)) ≡ some n
strip-body zero locale n w [] h l e =
    rw (strip-group locale (nat_text w) (nat_text-IsDigits w))
      (digits_of-nat_text w ∙ (unfold scan in e))
strip-body zero locale n w (c ∷ s) h l e = absurd (omega arith)
strip-body (suc k) locale n w fraction h l e =
    let nonzero : (suc k == 0) ≡ false = ground arith in
    rw nonzero (
      ap (digits_of 10) (
        strip-append locale (group (group_separator locale) (nat_text w))
          (decimal_separator locale ∷ fraction)
        ∙ ap₂ ◌++◌ (strip-group locale (nat_text w) (nat_text-IsDigits w))
            (strip-decimal locale fraction ∙ strip_digits locale fraction h))
      ∙ digits_of-append w fraction
      ∙ e)

starts_with_minus : (n : ℕ) → starts_with (nat_text n) (codes "-") ≡ false
unfolding starts_with
starts_with_minus n =
    let (c, s, e) = nat_text-cons n in
    let (h, _) : IsDigits (c ∷ s) = rw e at (nat_text-IsDigits n) in rw e (ground (arith, h))

-- A figure shows the whole amount: for every amount, exponent and locale the text is laid out in the
-- locale's groups with exactly `exponent` digits behind its mark, and read back it is that amount.
pub format_minor_units-IsFigure :
    (z : ℤ) (exponent : ℕ) (locale : Locale)
    → (out : Text) × (format_minor_units (int_text z) exponent locale ≡ ok out)
      × IsFigure locale exponent z out
unfolding format_minor_units int_text
format_minor_units-IsFigure (pos n) exponent locale =
    let p = padded-Parts exponent n in
    let digits = pad_start (exponent + 1) b'0' (nat_text n) in
    let fraction = drop (length digits - exponent) digits in
    (
      body exponent locale p.worth fraction,
      rw (starts_with_minus n) (format_digits_lem exponent locale false n digits p),
      record {
        whole = p.worth;
        fraction = fraction;
        fraction_digits = p.fraction_digits;
        fraction_length = p.fraction_length;
        laid_out = refl;
        value =
            figure_value_unsigned locale (body exponent locale p.worth fraction)
              (body-NotMinus exponent locale p.worth fraction p.fraction_digits)
            ∙ ap (Option.map pos) (
                strip-body exponent locale n p.worth fraction p.fraction_digits p.fraction_length
                  p.exact);
      },
    )
format_minor_units-IsFigure (negsuc m) exponent locale =
    let n = suc m in
    let p = padded-Parts exponent n in
    let digits = pad_start (exponent + 1) b'0' (nat_text n) in
    let fraction = drop (length digits - exponent) digits in
    (
      minus ∷ body exponent locale p.worth fraction,
      (unfold starts_with in format_digits_lem exponent locale true n digits p),
      record {
        whole = p.worth;
        fraction = fraction;
        fraction_digits = p.fraction_digits;
        fraction_length = p.fraction_length;
        laid_out = refl;
        value =
            (unfold figure_value in
              ap (Option.map neg_ℕ) (
                strip-body exponent locale n p.worth fraction p.fraction_digits p.fraction_length
                  p.exact));
      },
    )
