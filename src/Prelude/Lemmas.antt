-- ===== src/Prelude/Lemmas.antt =====
-- Lemmas that the components share: predicates on lists, trimmed texts, printed numbers.
use Prim.Native.Nat.{ℕ, zero, suc, ◌+◌, ◌-◌, ◌*◌, ◌/◌, ◌%◌, ◌≤◌, ◌<◌}
use mathlib.Core.Path.{◌≡◌, refl, ap, ◌∙◌}
use mathlib.Core.Logic.{inl, inr}
use mathlib.Core.Bool.{false}
use mathlib.Core.Option.{some}
use mathlib.Core.List.{List, [], ◌∷◌, ◌++◌, reverse, reverse-reverse, reverse-cons}
use native.Mathlib.Omega.{arith}
use native.Mathlib.Decide.{dec_lt}
use vekst.Prelude.Tests.{Option-cases}
use vekst.Prelude.Int.{ℤ, pos, negsuc, neg_ℕ}
use vekst.Prelude.Strings.{Text, is_space, trim, trim_start}
use vekst.Prelude.Decimal.{
  digit, scan, digits_of, int_literal, big_int, digits_below, nat_text, int_text,
}

module _ {ℓ κ} {A : Type ℓ} (P : A → Type κ) where
  abbrev pub All : List A → Type κ
  All [] = Unit
  All (x ∷ xs) = P x × All xs

  pub All-append : (xs ys : List A) → All xs → All ys → All (xs ++ ys)
  All-append [] ys h k = k
  All-append (x ∷ xs) ys h k = (h.0, All-append xs ys h.1 k)

pub All-imp {ℓ κ ι} :
    {A : Type ℓ} (P : A → Type κ) (Q : A → Type ι) (xs : List A)
    → ((x : A) → P x → Q x)
    → All P xs
    → All Q xs
All-imp P Q [] f h = tt
All-imp P Q (x ∷ xs) f h = (f x h.0, All-imp P Q xs f h.1)

abbrev pub IsDigit : ℕ → Type 0
IsDigit c = (b'0' ≤ c) × (c ≤ b'9')

-- A text of digits: what `nat_text` prints, and the part of a wire amount behind its sign.
abbrev pub IsDigits : Text → Type 0
IsDigits = All IsDigit

digits_below-IsDigits : (f n : ℕ) → IsDigits (digits_below f n)
unfolding digits_below
digits_below-IsDigits zero n = tt
digits_below-IsDigits (suc f) n = ground (
  arith,
  All-append IsDigit (digits_below f (n / 10)) ((b'0' + n % 10) ∷ [])
      (digits_below-IsDigits f (n / 10)),
)

pub nat_text-IsDigits : (n : ℕ) → IsDigits (nat_text n)
unfolding nat_text
nat_text-IsDigits n = digits_below-IsDigits (suc n) n

pub digit_ten : (v : ℕ) → v < 10 → digit 10 (b'0' + v) ≡ some v
unfolding digit
digit_ten v h = ground arith

pub scan-append :
    (n : ℕ) (s t : Text) {m : ℕ} → scan 10 n s ≡ some m → scan 10 n (s ++ t) ≡ scan 10 m t
unfolding scan
scan-append n [] t h = ground arith
scan-append n (c ∷ s) t {m} h = elim (Option-cases (digit 10 c)) [
  | inl e ↦ ground arith
  | inr (v, e) ↦ rw (e, scan) (scan-append (n * 10 + v) s t (ground arith))
]

scan-digit : (n v : ℕ) → v < 10 → scan 10 n ((b'0' + v) ∷ []) ≡ some (n * 10 + v)
unfolding scan
scan-digit n v h = rw (digit_ten v h, scan)

digits_below_small : (f n : ℕ) → n < 10 → digits_below (suc f) n ≡ (b'0' + n) ∷ []
unfolding digits_below
digits_below_small f n h = ground arith

digits_below_large :
    (f n : ℕ) → 10 ≤ n → digits_below (suc f) n ≡ digits_below f (n / 10) ++ (b'0' + n % 10) ∷ []
unfolding digits_below
digits_below_large f n h = ground arith

digits_below_step :
    (f n : ℕ)
    → n < f
    → 10 ≤ n
    → digits_below f n ≡ digits_below (f - 1) (n / 10) ++ (b'0' + n % 10) ∷ []
digits_below_step zero n lt h = elim lt [ ]
digits_below_step (suc f) n lt h =
    let same : suc f - 1 ≡ f = omega arith in rw same (digits_below_large f n h)

digits_below_last : (f n : ℕ) → n < f → n < 10 → digits_below f n ≡ (b'0' + n) ∷ []
digits_below_last zero n lt h = elim lt [ ]
digits_below_last (suc f) n lt h = digits_below_small f n h

scan-digits_below : (f n : ℕ) → n < f → scan 10 0 (digits_below f n) ≡ some n
scan-digits_below zero n h = elim h [ ]
scan-digits_below (suc f) n h = elim (dec_lt n 10) [
  | yes small ↦ rw (digits_below_small f n small) (scan-digit 0 n small ∙ ap some (omega arith))
  | no big ↦ rw (digits_below_large f n (omega arith)) (
      scan-append 0 (digits_below f (n / 10)) _ (scan-digits_below f (n / 10) (omega arith))
      ∙ scan-digit (n / 10) (n % 10) (omega arith)
      ∙ ap some (omega arith))
]

append-eq-cons : (s : Text) (c : ℕ) → (d : ℕ) × (t : Text) × (s ++ c ∷ [] ≡ d ∷ t)
append-eq-cons [] c = (c, [], refl)
append-eq-cons (d ∷ s) c = (d, s ++ c ∷ [], refl)

digits_below-cons : (f n : ℕ) → (c : ℕ) × (s : Text) × (digits_below (suc f) n ≡ c ∷ s)
digits_below-cons f n = elim (dec_lt n 10) [
  | yes small ↦ (b'0' + n, [], digits_below_small f n small)
  | no big ↦
      let (c, s, e) = append-eq-cons (digits_below f (n / 10)) (b'0' + n % 10) in
      (c, s, digits_below_large f n (omega arith) ∙ e)
]

pub digits_of-nat_text : (n : ℕ) → digits_of 10 (nat_text n) ≡ some n
unfolding digits_of nat_text
digits_of-nat_text n =
    let (c, s, e) = digits_below-cons n n in
    rw (e, digits_of) (rw (← e) (scan-digits_below (suc n) n (omega arith)))

pub scan-nat_text : (n : ℕ) → scan 10 0 (nat_text n) ≡ some n
unfolding nat_text
scan-nat_text n = scan-digits_below (suc n) n (omega arith)

pub nat_text-cons : (n : ℕ) → (c : ℕ) × (s : Text) × (nat_text n ≡ c ∷ s)
unfolding nat_text
nat_text-cons n = digits_below-cons n n

-- A year of four digits.
pub nat_text_four :
    (n : ℕ)
    → 1000 ≤ n
    → n < 10000
    → nat_text n
      ≡ (b'0' + n / 1000) ∷ (b'0' + n / 100 % 10) ∷ (b'0' + n / 10 % 10) ∷ (b'0' + n % 10) ∷ []
unfolding nat_text
nat_text_four n lo hi =
    let a : n / 10 / 10 ≡ n / 100 = omega arith in
    let b : n / 10 / 10 / 10 ≡ n / 1000 = omega arith in
    rw (
      digits_below_step (suc n) n (omega arith) (omega arith),
      digits_below_step (suc n - 1) (n / 10) (omega arith) (omega arith),
      digits_below_step (suc n - 1 - 1) (n / 10 / 10) (omega arith) (omega arith),
      digits_below_last (suc n - 1 - 1 - 1) (n / 10 / 10 / 10) (omega arith) (omega arith),
      b,
      a,
    )

-- A month of one digit, or of two.
pub nat_text_one : (n : ℕ) → n < 10 → nat_text n ≡ (b'0' + n) ∷ []
unfolding nat_text
nat_text_one n h = digits_below_last (suc n) n (omega arith) h

pub nat_text_two : (n : ℕ) → 10 ≤ n → n < 100 → nat_text n ≡ (b'0' + n / 10) ∷ (b'0' + n % 10) ∷ []
unfolding nat_text
nat_text_two n lo hi = rw (
  digits_below_step (suc n) n (omega arith) lo,
  digits_below_last (suc n - 1) (n / 10) (omega arith) (omega arith),
)

abbrev pub IsVisible : ℕ → Type 0
IsVisible c = is_space c ≡ false

pub All-reverse {ℓ κ} : {A : Type ℓ} (P : A → Type κ) (xs : List A) → All P xs → All P (reverse xs)
All-reverse P [] h = tt
All-reverse P (x ∷ xs) h =
    rw (reverse-cons x xs) (All-append P (reverse xs) (x ∷ []) (All-reverse P xs h.1) (h.0, tt))

trim_start_visible : (s : Text) → All IsVisible s → trim_start s ≡ s
unfolding trim_start
trim_start_visible [] h = refl
trim_start_visible (c ∷ s) h = rw h.0

-- A text with no white space is its own trim.
pub trim_visible : (s : Text) → All IsVisible s → trim s ≡ s
unfolding trim
trim_visible s h =
    rw (trim_start_visible s h)
      (rw (trim_start_visible (reverse s) (All-reverse IsVisible s h)) (reverse-reverse s))

digit-IsVisible : (c : ℕ) → IsDigit c → IsVisible c
unfolding is_space
digit-IsVisible c h = ground arith

pub IsDigits-IsVisible : (s : Text) → IsDigits s → All IsVisible s
IsDigits-IsVisible [] h = tt
IsDigits-IsVisible (c ∷ s) h = (digit-IsVisible c h.0, IsDigits-IsVisible s h.1)

-- Without a sign or a radix prefix a literal is its digits.
int_literal_digits :
    (s : Text) {n : ℕ} → IsDigits s → digits_of 10 s ≡ some n → int_literal s ≡ some (pos n)
unfolding int_literal
int_literal_digits [] h e = ground arith
int_literal_digits (c ∷ []) h e = rw e
int_literal_digits (c ∷ d ∷ s) h e = ground arith

int_literal_minus :
    (s : Text) {n : ℕ} → digits_of 10 s ≡ some n → int_literal (b'-' ∷ s) ≡ some (neg_ℕ n)
unfolding int_literal
int_literal_minus [] e = ground arith
int_literal_minus (d ∷ s) e = rw e

pub big_int_digits :
    (s : Text) {n : ℕ} → IsDigits s → digits_of 10 s ≡ some n → big_int s ≡ some (pos n)
unfolding big_int
big_int_digits s h e = rw (trim_visible s (IsDigits-IsVisible s h)) (int_literal_digits s h e)

pub big_int_minus :
    (s : Text) {n : ℕ} → IsDigits s → digits_of 10 s ≡ some n → big_int (b'-' ∷ s) ≡ some (neg_ℕ n)
unfolding big_int
big_int_minus s h e =
    rw (trim_visible (b'-' ∷ s) (unfold is_space in refl, IsDigits-IsVisible s h))
      (int_literal_minus s e)

-- BigInt(value.toString()) is the value.
pub big_int-int_text : (z : ℤ) → big_int (int_text z) ≡ some z
unfolding int_text
big_int-int_text (pos n) = big_int_digits (nat_text n) (nat_text-IsDigits n) (digits_of-nat_text n)
big_int-int_text (negsuc n) =
    big_int_minus (nat_text (suc n)) (nat_text-IsDigits (suc n)) (digits_of-nat_text (suc n))
