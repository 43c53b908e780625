-- ===== src/Prelude/Strings.antt =====
-- JavaScript strings, as lists of UTF-16 code units, and the string methods that the client calls.
use Prim.Native.Char.{code}
use Prim.Native.String.{String}
use Prim.Native.Nat.{ℕ, ◌+◌, ◌-◌}
use mathlib.Core.Path.{◌≡◌, refl}
use mathlib.Core.Logic.{◌↔◌}
use mathlib.Core.Bool.{Bool, true, false, ◌&&◌, ◌||◌}
use mathlib.Core.List.{List, [], ◌∷◌, ◌++◌, map, reverse}
use native.Mathlib.Omega.{arith}
use vekst.Prelude.Tests.{leb, ◌==◌, if◌then◌else◌}
use vekst.Prelude.Lists.{length, replicate, take, drop}

abbrev pub Text : Type 0
Text = List ℕ

abbrev pub codes : String → Text
codes String.[] = []
codes (String.◌∷◌ c s) = code c ∷ codes s

-- a === b
unfoldable pub text_eq : Text → Text → Bool
text_eq [] [] = true
text_eq [] (_ ∷ _) = false
text_eq (_ ∷ _) [] = false
text_eq (a ∷ s) (b ∷ t) = a == b && text_eq s t

pub text_eq_iff : (s t : Text) → (text_eq s t ≡ true) ↔ (s ≡ t)
unfolding text_eq
text_eq_iff [] [] = ((λ _. refl), (λ _. refl))
text_eq_iff [] (b ∷ t) = ((λ h. cc), (λ h. cc))
text_eq_iff (a ∷ s) [] = ((λ h. cc), (λ h. cc))
text_eq_iff (a ∷ s) (b ∷ t) =
    ((λ h. ground (arith, text_eq_iff s t)), (λ h. ground (arith, text_eq_iff s t)))

pub text_eq_refl : (s : Text) → text_eq s s ≡ true
text_eq_refl s = (text_eq_iff s s).1 refl

-- s.startsWith(p)
unfoldable pub starts_with : Text → Text → Bool
starts_with s [] = true
starts_with [] (_ ∷ _) = false
starts_with (a ∷ s) (b ∷ p) = a == b && starts_with s p

pub starts_with-append : (p s : Text) → starts_with (p ++ s) p ≡ true
unfolding starts_with
starts_with-append [] s = refl
starts_with-append (a ∷ p) s = ground (arith, starts_with-append p s)

-- s.includes(p)
unfoldable pub includes : Text → Text → Bool
unfolding starts_with
includes [] p = starts_with [] p
includes (a ∷ s) p = starts_with (a ∷ s) p || includes s p

-- s.padStart(n, c)
unfoldable pub pad_start : ℕ → ℕ → Text → Text
pad_start n c s = replicate (n - length s) c ++ s

-- s.slice(0, -n) and s.slice(-n), for 0 < n
abbrev pub but_last : ℕ → Text → Text
but_last n s = take (length s - n) s

abbrev pub at_last : ℕ → Text → Text
at_last n s = drop (length s - n) s

-- xs.join(sep)
unfoldable pub join : Text → List Text → Text
join sep [] = []
join sep (x ∷ []) = x
join sep (x ∷ y ∷ xs) = x ++ (sep ++ join sep (y ∷ xs))

-- The white space and line ends of ECMAScript, which `trim`, `\s` and `BigInt` agree on.
unfoldable pub is_space : ℕ → Bool
is_space c =
    (leb 9 c && leb c 13)
    || c == 0x20
    || c == 0xa0
    || c == 0x1680
    || (leb 0x2000 c && leb c 0x200a)
    || c == 0x2028
    || c == 0x2029
    || c == 0x202f
    || c == 0x205f
    || c == 0x3000
    || c == 0xfeff

unfoldable pub trim_start : Text → Text
unfolding is_space
trim_start [] = []
trim_start (c ∷ s) = if is_space c then trim_start s else c ∷ s

-- s.trim()
unfoldable pub trim : Text → Text
unfolding trim_start
trim s = reverse (trim_start (reverse (trim_start s)))

-- toLowerCase and toUpperCase on Latin and Cyrillic letters, those of the two locales; any other
-- code unit is left alone.
unfoldable pub lower : ℕ → ℕ
lower c =
    if (leb b'A' c && leb c b'Z') || (leb 0x410 c && leb c 0x42f)
    then c + 32
    else if leb 0x400 c && leb c 0x40f
    then c + 80
    else c

abbrev capital : ℕ → ℕ
capital c =
    if (leb b'a' c && leb c b'z') || (leb 0x430 c && leb c 0x44f)
    then c - 32
    else if leb 0x450 c && leb c 0x45f
    then c - 80
    else c

-- The other letters that become capitals of the Latin alphabet, some of them more than one: the sharp s, the
-- i without its dot, the long s, and the ligatures.
abbrev ligatures : List (ℕ × Text)
ligatures =
    (0xdf, codes "SS")
    ∷ (0x131, codes "I")
    ∷ (0x17f, codes "S")
    ∷ (0xfb00, codes "FF")
    ∷ (0xfb01, codes "FI")
    ∷ (0xfb02, codes "FL")
    ∷ (0xfb03, codes "FFI")
    ∷ (0xfb04, codes "FFL")
    ∷ (0xfb05, codes "ST")
    ∷ (0xfb06, codes "ST")
    ∷ []

abbrev capitals_in : ℕ → List (ℕ × Text) → Text
capitals_in c [] = capital c ∷ []
capitals_in c ((l, s) ∷ rest) = let other = capitals_in c rest in if c == l then s else other

unfoldable pub upper : ℕ → Text
upper c = capitals_in c ligatures

unfoldable pub to_lower_case : Text → Text
unfolding lower
to_lower_case s = map lower s

unfoldable pub to_upper_case : Text → Text
unfolding upper
to_upper_case [] = []
to_upper_case (c ∷ s) = upper c ++ to_upper_case s

-- s.split(sep) for a separator of one code unit: never empty.
unfoldable pub split_on : ℕ → Text → Text → List Text
split_on sep cur [] = reverse cur ∷ []
split_on sep cur (c ∷ s) =
    let closed = reverse cur ∷ split_on sep [] s in
    let longer = split_on sep (c ∷ cur) s in if c == sep then closed else longer
