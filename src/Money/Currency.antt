-- ===== src/Money/Currency.antt =====
-- web/src/money.ts: the minor-unit digits of each ISO-4217 code, and the copy of the table that
-- core/internal/money/exponents.go holds.
use vekst.Prelude.{
  ◌≡◌, refl, ◌↔◌, inl, inr, Bool, Bool-cases, true, false, not, ◌&&◌, leb, ◌≤◌, arith, Text, codes,
  ℕ, List, [], ◌∷◌, Option, none, some, if◌then◌else◌,
}
use vekst.Prelude.Strings.{text_eq, text_eq_iff, to_upper_case}
use mathlib.Core.Option.{some-injective}
use Prim.Native.String.{String}

abbrev entry : String → ℕ → Text × ℕ
entry code digits = (codes code, digits)

abbrev pub exponents : List (Text × ℕ)
exponents =
    entry "AED" 2
    ∷ entry "AFN" 2
    ∷ entry "ALL" 2
    ∷ entry "AMD" 2
    ∷ entry "ANG" 2
    ∷ entry "AOA" 2
    ∷ entry "ARS" 2
    ∷ entry "AUD" 2
    ∷ entry "AWG" 2
    ∷ entry "AZN" 2
    ∷ entry "BAM" 2
    ∷ entry "BBD" 2
    ∷ entry "BDT" 2
    ∷ entry "BGN" 2
    ∷ entry "BHD" 3
    ∷ entry "BIF" 0
    ∷ entry "BMD" 2
    ∷ entry "BND" 2
    ∷ entry "BOB" 2
    ∷ entry "BOV" 2
    ∷ entry "BRL" 2
    ∷ entry "BSD" 2
    ∷ entry "BTN" 2
    ∷ entry "BWP" 2
    ∷ entry "BYN" 2
    ∷ entry "BZD" 2
    ∷ entry "CAD" 2
    ∷ entry "CDF" 2
    ∷ entry "CHE" 2
    ∷ entry "CHF" 2
    ∷ entry "CHW" 2
    ∷ entry "CLF" 4
    ∷ entry "CLP" 0
    ∷ entry "CNY" 2
    ∷ entry "COP" 2
    ∷ entry "COU" 2
    ∷ entry "CRC" 2
    ∷ entry "CUC" 2
    ∷ entry "CUP" 2
    ∷ entry "CVE" 2
    ∷ entry "CZK" 2
    ∷ entry "DJF" 0
    ∷ entry "DKK" 2
    ∷ entry "DOP" 2
    ∷ entry "DZD" 2
    ∷ entry "EGP" 2
    ∷ entry "ERN" 2
    ∷ entry "ETB" 2
    ∷ entry "EUR" 2
    ∷ entry "FJD" 2
    ∷ entry "FKP" 2
    ∷ entry "GBP" 2
    ∷ entry "GEL" 2
    ∷ entry "GHS" 2
    ∷ entry "GIP" 2
    ∷ entry "GMD" 2
    ∷ entry "GNF" 0
    ∷ entry "GTQ" 2
    ∷ entry "GYD" 2
    ∷ entry "HKD" 2
    ∷ entry "HNL" 2
    ∷ entry "HTG" 2
    ∷ entry "HUF" 2
    ∷ entry "IDR" 2
    ∷ entry "ILS" 2
    ∷ entry "INR" 2
    ∷ entry "IQD" 3
    ∷ entry "IRR" 2
    ∷ entry "ISK" 0
    ∷ entry "JMD" 2
    ∷ entry "JOD" 3
    ∷ entry "JPY" 0
    ∷ entry "KES" 2
    ∷ entry "KGS" 2
    ∷ entry "KHR" 2
    ∷ entry "KMF" 0
    ∷ entry "KPW" 2
    ∷ entry "KRW" 0
    ∷ entry "KWD" 3
    ∷ entry "KYD" 2
    ∷ entry "KZT" 2
    ∷ entry "LAK" 2
    ∷ entry "LBP" 2
    ∷ entry "LKR" 2
    ∷ entry "LRD" 2
    ∷ entry "LSL" 2
    ∷ entry "LYD" 3
    ∷ entry "MAD" 2
    ∷ entry "MDL" 2
    ∷ entry "MGA" 2
    ∷ entry "MKD" 2
    ∷ entry "MMK" 2
    ∷ entry "MNT" 2
    ∷ entry "MOP" 2
    ∷ entry "MRU" 2
    ∷ entry "MUR" 2
    ∷ entry "MVR" 2
    ∷ entry "MWK" 2
    ∷ entry "MXN" 2
    ∷ entry "MXV" 2
    ∷ entry "MYR" 2
    ∷ entry "MZN" 2
    ∷ entry "NAD" 2
    ∷ entry "NGN" 2
    ∷ entry "NIO" 2
    ∷ entry "NOK" 2
    ∷ entry "NPR" 2
    ∷ entry "NZD" 2
    ∷ entry "OMR" 3
    ∷ entry "PAB" 2
    ∷ entry "PEN" 2
    ∷ entry "PGK" 2
    ∷ entry "PHP" 2
    ∷ entry "PKR" 2
    ∷ entry "PLN" 2
    ∷ entry "PYG" 0
    ∷ entry "QAR" 2
    ∷ entry "RON" 2
    ∷ entry "RSD" 2
    ∷ entry "RUB" 2
    ∷ entry "RWF" 0
    ∷ entry "SAR" 2
    ∷ entry "SBD" 2
    ∷ entry "SCR" 2
    ∷ entry "SDG" 2
    ∷ entry "SEK" 2
    ∷ entry "SGD" 2
    ∷ entry "SHP" 2
    ∷ entry "SLE" 2
    ∷ entry "SOS" 2
    ∷ entry "SRD" 2
    ∷ entry "SSP" 2
    ∷ entry "STN" 2
    ∷ entry "SVC" 2
    ∷ entry "SYP" 2
    ∷ entry "SZL" 2
    ∷ entry "THB" 2
    ∷ entry "TJS" 2
    ∷ entry "TMT" 2
    ∷ entry "TND" 3
    ∷ entry "TOP" 2
    ∷ entry "TRY" 2
    ∷ entry "TTD" 2
    ∷ entry "TWD" 2
    ∷ entry "TZS" 2
    ∷ entry "UAH" 2
    ∷ entry "UGX" 0
    ∷ entry "USD" 2
    ∷ entry "USN" 2
    ∷ entry "UYI" 0
    ∷ entry "UYU" 2
    ∷ entry "UYW" 4
    ∷ entry "UZS" 2
    ∷ entry "VED" 2
    ∷ entry "VES" 2
    ∷ entry "VND" 0
    ∷ entry "VUV" 0
    ∷ entry "WST" 2
    ∷ entry "XAF" 0
    ∷ entry "XAG" 0
    ∷ entry "XAU" 0
    ∷ entry "XBA" 0
    ∷ entry "XBB" 0
    ∷ entry "XBC" 0
    ∷ entry "XBD" 0
    ∷ entry "XCD" 2
    ∷ entry "XDR" 0
    ∷ entry "XOF" 0
    ∷ entry "XPD" 0
    ∷ entry "XPF" 0
    ∷ entry "XPT" 0
    ∷ entry "XSU" 0
    ∷ entry "XUA" 0
    ∷ entry "YER" 2
    ∷ entry "ZAR" 2
    ∷ entry "ZMW" 2
    ∷ entry "ZWL" 2
    ∷ []

-- The Go map.
abbrev pub core_exponents : List (Text × ℕ)
core_exponents =
    entry "AED" 2
    ∷ entry "AFN" 2
    ∷ entry "ALL" 2
    ∷ entry "AMD" 2
    ∷ entry "ANG" 2
    ∷ entry "AOA" 2
    ∷ entry "ARS" 2
    ∷ entry "AUD" 2
    ∷ entry "AWG" 2
    ∷ entry "AZN" 2
    ∷ entry "BAM" 2
    ∷ entry "BBD" 2
    ∷ entry "BDT" 2
    ∷ entry "BGN" 2
    ∷ entry "BHD" 3
    ∷ entry "BIF" 0
    ∷ entry "BMD" 2
    ∷ entry "BND" 2
    ∷ entry "BOB" 2
    ∷ entry "BOV" 2
    ∷ entry "BRL" 2
    ∷ entry "BSD" 2
    ∷ entry "BTN" 2
    ∷ entry "BWP" 2
    ∷ entry "BYN" 2
    ∷ entry "BZD" 2
    ∷ entry "CAD" 2
    ∷ entry "CDF" 2
    ∷ entry "CHE" 2
    ∷ entry "CHF" 2
    ∷ entry "CHW" 2
    ∷ entry "CLF" 4
    ∷ entry "CLP" 0
    ∷ entry "CNY" 2
    ∷ entry "COP" 2
    ∷ entry "COU" 2
    ∷ entry "CRC" 2
    ∷ entry "CUC" 2
    ∷ entry "CUP" 2
    ∷ entry "CVE" 2
    ∷ entry "CZK" 2
    ∷ entry "DJF" 0
    ∷ entry "DKK" 2
    ∷ entry "DOP" 2
    ∷ entry "DZD" 2
    ∷ entry "EGP" 2
    ∷ entry "ERN" 2
    ∷ entry "ETB" 2
    ∷ entry "EUR" 2
    ∷ entry "FJD" 2
    ∷ entry "FKP" 2
    ∷ entry "GBP" 2
    ∷ entry "GEL" 2
    ∷ entry "GHS" 2
    ∷ entry "GIP" 2
    ∷ entry "GMD" 2
    ∷ entry "GNF" 0
    ∷ entry "GTQ" 2
    ∷ entry "GYD" 2
    ∷ entry "HKD" 2
    ∷ entry "HNL" 2
    ∷ entry "HTG" 2
    ∷ entry "HUF" 2
    ∷ entry "IDR" 2
    ∷ entry "ILS" 2
    ∷ entry "INR" 2
    ∷ entry "IQD" 3
    ∷ entry "IRR" 2
    ∷ entry "ISK" 0
    ∷ entry "JMD" 2
    ∷ entry "JOD" 3
    ∷ entry "JPY" 0
    ∷ entry "KES" 2
    ∷ entry "KGS" 2
    ∷ entry "KHR" 2
    ∷ entry "KMF" 0
    ∷ entry "KPW" 2
    ∷ entry "KRW" 0
    ∷ entry "KWD" 3
    ∷ entry "KYD" 2
    ∷ entry "KZT" 2
    ∷ entry "LAK" 2
    ∷ entry "LBP" 2
    ∷ entry "LKR" 2
    ∷ entry "LRD" 2
    ∷ entry "LSL" 2
    ∷ entry "LYD" 3
    ∷ entry "MAD" 2
    ∷ entry "MDL" 2
    ∷ entry "MGA" 2
    ∷ entry "MKD" 2
    ∷ entry "MMK" 2
    ∷ entry "MNT" 2
    ∷ entry "MOP" 2
    ∷ entry "MRU" 2
    ∷ entry "MUR" 2
    ∷ entry "MVR" 2
    ∷ entry "MWK" 2
    ∷ entry "MXN" 2
    ∷ entry "MXV" 2
    ∷ entry "MYR" 2
    ∷ entry "MZN" 2
    ∷ entry "NAD" 2
    ∷ entry "NGN" 2
    ∷ entry "NIO" 2
    ∷ entry "NOK" 2
    ∷ entry "NPR" 2
    ∷ entry "NZD" 2
    ∷ entry "OMR" 3
    ∷ entry "PAB" 2
    ∷ entry "PEN" 2
    ∷ entry "PGK" 2
    ∷ entry "PHP" 2
    ∷ entry "PKR" 2
    ∷ entry "PLN" 2
    ∷ entry "PYG" 0
    ∷ entry "QAR" 2
    ∷ entry "RON" 2
    ∷ entry "RSD" 2
    ∷ entry "RUB" 2
    ∷ entry "RWF" 0
    ∷ entry "SAR" 2
    ∷ entry "SBD" 2
    ∷ entry "SCR" 2
    ∷ entry "SDG" 2
    ∷ entry "SEK" 2
    ∷ entry "SGD" 2
    ∷ entry "SHP" 2
    ∷ entry "SLE" 2
    ∷ entry "SOS" 2
    ∷ entry "SRD" 2
    ∷ entry "SSP" 2
    ∷ entry "STN" 2
    ∷ entry "SVC" 2
    ∷ entry "SYP" 2
    ∷ entry "SZL" 2
    ∷ entry "THB" 2
    ∷ entry "TJS" 2
    ∷ entry "TMT" 2
    ∷ entry "TND" 3
    ∷ entry "TOP" 2
    ∷ entry "TRY" 2
    ∷ entry "TTD" 2
    ∷ entry "TWD" 2
    ∷ entry "TZS" 2
    ∷ entry "UAH" 2
    ∷ entry "UGX" 0
    ∷ entry "USD" 2
    ∷ entry "USN" 2
    ∷ entry "UYI" 0
    ∷ entry "UYU" 2
    ∷ entry "UYW" 4
    ∷ entry "UZS" 2
    ∷ entry "VED" 2
    ∷ entry "VES" 2
    ∷ entry "VND" 0
    ∷ entry "VUV" 0
    ∷ entry "WST" 2
    ∷ entry "XAF" 0
    ∷ entry "XAG" 0
    ∷ entry "XAU" 0
    ∷ entry "XBA" 0
    ∷ entry "XBB" 0
    ∷ entry "XBC" 0
    ∷ entry "XBD" 0
    ∷ entry "XCD" 2
    ∷ entry "XDR" 0
    ∷ entry "XOF" 0
    ∷ entry "XPD" 0
    ∷ entry "XPF" 0
    ∷ entry "XPT" 0
    ∷ entry "XSU" 0
    ∷ entry "XUA" 0
    ∷ entry "YER" 2
    ∷ entry "ZAR" 2
    ∷ entry "ZMW" 2
    ∷ entry "ZWL" 2
    ∷ []

-- EXPONENT[code]
unfoldable pub lookup_exponent : Text → List (Text × ℕ) → Option ℕ
lookup_exponent code [] = none
lookup_exponent code ((c, e) ∷ table) =
    if text_eq c code then some e else lookup_exponent code table

unfoldable pub exponent_of : Text → Option ℕ
unfolding lookup_exponent
exponent_of code = lookup_exponent (to_upper_case code) exponents

abbrev below_five : List (Text × ℕ) → Bool
below_five [] = true
below_five ((c, e) ∷ table) = leb e 4 && below_five table

lookup_exponent_bound :
    (code : Text) (table : List (Text × ℕ)) {e : ℕ}
    → below_five table ≡ true
    → lookup_exponent code table ≡ some e
    → e ≤ 4
unfolding lookup_exponent
lookup_exponent_bound code [] h k = absurd (cc k)
lookup_exponent_bound code ((c, d) ∷ table) h k = grind (arith, lookup_exponent_bound code table)

-- No currency has more than four decimals.
pub exponent_of-le : (code : Text) {e : ℕ} → exponent_of code ≡ some e → e ≤ 4
unfolding exponent_of
exponent_of-le code h = lookup_exponent_bound (to_upper_case code) exponents refl h

-- No code stands in a table twice, and each is in capitals.
abbrev fresh : Text → List (Text × ℕ) → Bool
fresh code [] = true
fresh code ((c, e) ∷ table) = not (text_eq code c) && fresh code table

abbrev is_map : List (Text × ℕ) → Bool
is_map [] = true
is_map ((c, e) ∷ table) = text_eq (to_upper_case c) c && (fresh c table && is_map table)

exponents_map : is_map exponents ≡ true
unfolding text_eq to_upper_case
exponents_map = refl

-- A table has an entry.
pub data Listed (code : Text) (e : ℕ) : List (Text × ℕ) → Type 0 where
  here : {table : List (Text × ℕ)} → Listed code e ((code, e) ∷ table)
  later : {c : Text × ℕ} {table : List (Text × ℕ)} → Listed code e table → Listed code e (c ∷ table)

fresh_lem :
    (c : Text) {code : Text} {e : ℕ} {table : List (Text × ℕ)}
    → fresh c table ≡ true
    → Listed code e table
    → text_eq c code ≡ false
fresh_lem c {code} h here = elim (Bool-cases (text_eq c code)) [
  | inl same ↦ absurd (grind (arith, same, h))
  | inr other ↦ other
]
fresh_lem c h (later {c = (d, n)} m) = fresh_lem c (ground (arith, h)) m

module _ (code : Text) {e : ℕ} where
  Listed-lookup_exponent :
      {table : List (Text × ℕ)}
      → is_map table ≡ true
      → Listed code e table
      → (lookup_exponent code table ≡ some e) × (to_upper_case code ≡ code)
  unfolding lookup_exponent
  Listed-lookup_exponent h here =
      let same = (text_eq_iff code code).1 refl in
      (rw same refl, (text_eq_iff (to_upper_case code) code).0 (ground (arith, h)))
  Listed-lookup_exponent h (later {c = (d, n)} m) =
      let apart : text_eq d code ≡ false = fresh_lem d (ground (arith, h)) m in
      let (found, capitals) = Listed-lookup_exponent (ground (arith, h)) m in
      (rw apart found, capitals)

  lookup_exponent-Listed :
      (table : List (Text × ℕ)) → lookup_exponent code table ≡ some e → Listed code e table
  unfolding lookup_exponent
  lookup_exponent-Listed [] h = absurd (cc h)
  lookup_exponent-Listed ((c, d) ∷ table) h =
      go (text_eq c code) refl h (lookup_exponent-Listed table)
    where
      go :
          (b : Bool)
          → text_eq c code ≡ b
          → (if b then some d else lookup_exponent code table) ≡ some e
          → (lookup_exponent code table ≡ some e → Listed code e table)
          → Listed code e ((c, d) ∷ table)
      go true same h rest = rw ((text_eq_iff c code).0 same, some-injective d e h) here
      go false apart h rest = later (rest h)

-- The client and the server agree: a code is in core's table with some digits exactly when it is in capitals
-- and the client has it with those digits.
pub exponent_of-core :
    (code : Text) (e : ℕ)
    → Listed code e core_exponents ↔ ((exponent_of code ≡ some e) × (to_upper_case code ≡ code))
unfolding exponent_of
exponent_of-core code e = (
  (λ m.
      let (found, capitals) = Listed-lookup_exponent code exponents_map m in
      (rw capitals found, capitals)),
  (λ (h, capitals). lookup_exponent-Listed code exponents (rw capitals at h)),
)
