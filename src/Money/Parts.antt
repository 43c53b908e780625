-- ===== src/Money/Parts.antt =====
-- The whole part and the fraction of an amount's digits, which web/src/money.ts cuts apart.
use vekst.Prelude.{
  Text, ℕ, zero, suc, ◌+◌, ◌-◌, ◌*◌, ◌<◌, ◌≡◌, refl, ap, ◌∙◌, sym, [], ◌∷◌, ◌++◌, some, pos, arith,
  take, drop, length, length-append, length-drop, length-take, take-append-drop, replicate,
  length-replicate,
}
use vekst.Prelude.Decimal.{digit, scan, digits_of, big_int, nat_text}
use vekst.Prelude.Strings.{pad_start}
use vekst.Prelude.Lemmas.{
  scan-nat_text, IsDigit, IsDigits, nat_text-IsDigits, big_int_digits, scan-append,
}
use vekst.Money.{}

IsDigits-take : (n : ℕ) (s : Text) → IsDigits s → IsDigits (take n s)
IsDigits-take zero s h = tt
IsDigits-take (suc n) [] h = tt
IsDigits-take (suc n) (c ∷ s) h = (h.0, IsDigits-take n s h.1)

IsDigits-drop : (n : ℕ) (s : Text) → IsDigits s → IsDigits (drop n s)
IsDigits-drop zero s h = h
IsDigits-drop (suc n) [] h = tt
IsDigits-drop (suc n) (c ∷ s) h = IsDigits-drop n s h.1

digit-IsDigit : (c : ℕ) → IsDigit c → (v : ℕ) × (digit 10 c ≡ some v)
unfolding digit
digit-IsDigit c h = (c - b'0', ground arith)

-- Every text of digits is read.
scan_total : (n : ℕ) (s : Text) → IsDigits s → (m : ℕ) × (scan 10 n s ≡ some m)
unfolding scan
scan_total n [] h = (n, refl)
scan_total n (c ∷ s) h =
    let (v, e) = digit-IsDigit c h.0 in
    let (m, e') = scan_total (n * 10 + v) s h.1 in (m, rw (e, scan) e')

-- Padding with zeros changes no value.
scan-zeros : (k : ℕ) (s : Text) → scan 10 0 (replicate k b'0' ++ s) ≡ scan 10 0 s
unfolding scan
scan-zeros zero s = refl
scan-zeros (suc k) s = scan-zeros k s

IsDigits-zeros : (k : ℕ) (s : Text) → IsDigits s → IsDigits (replicate k b'0' ++ s)
IsDigits-zeros zero s h = h
IsDigits-zeros (suc k) s h = ((omega arith, omega arith), IsDigits-zeros k s h)

scan-split :
    (k : ℕ) (s : Text) {n w : ℕ}
    → scan 10 0 s ≡ some n
    → scan 10 0 (take k s) ≡ some w
    → scan 10 w (drop k s) ≡ some n
scan-split k s h e =
    sym (scan-append 0 (take k s) (drop k s) e) ∙ ap (scan 10 0) (take-append-drop k s) ∙ h

pub digits_of-scan : (s : Text) → 0 < length s → digits_of 10 s ≡ scan 10 0 s
unfolding digits_of
digits_of-scan [] h = elim h [ ]
digits_of-scan (c ∷ s) h = refl

-- The whole part and the fraction of a padded amount, and what they are worth together.
pub record Parts (exponent n : ℕ) (digits : Text) : Type 0 where
  pub worth : ℕ
  pub whole_read : big_int (take (length digits - exponent) digits) ≡ some (pos worth)
  pub fraction_digits : IsDigits (drop (length digits - exponent) digits)
  pub fraction_length : length (drop (length digits - exponent) digits) ≡ exponent
  pub exact : scan 10 worth (drop (length digits - exponent) digits) ≡ some n

split-Parts :
    (exponent n : ℕ) (s : Text)
    → IsDigits s
    → scan 10 0 s ≡ some n
    → exponent < length s
    → Parts exponent n s
split-Parts exponent n s h e long =
    let k = length s - exponent in
    let (w, read) = scan_total 0 (take k s) (IsDigits-take k s h) in
    record {
      worth = w;
      whole_read =
          big_int_digits (take k s) (IsDigits-take k s h)
            (digits_of-scan (take k s) (omega (arith, length-take k s)) ∙ read);
      fraction_digits = IsDigits-drop k s h;
      fraction_length = omega (arith, length-drop k s);
      exact = scan-split k s e read;
    }

pub padded-Parts : (exponent n : ℕ) → Parts exponent n (pad_start (exponent + 1) b'0' (nat_text n))
unfolding pad_start
padded-Parts exponent n =
    let k = exponent + 1 - length (nat_text n) in
    split-Parts exponent n (replicate k b'0' ++ nat_text n)
      (IsDigits-zeros k (nat_text n) (nat_text-IsDigits n))
      (scan-zeros k (nat_text n) ∙ scan-nat_text n)
      (omega
        (arith, length-append (replicate k b'0') (nat_text n), length-replicate {A = ℕ} k b'0'))
