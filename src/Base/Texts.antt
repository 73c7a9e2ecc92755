-- ===== src/Base/Texts.antt =====
-- Strings as the language has them: sequences of UTF-16 code units.
use Prim.Native.Nat.{ℕ, ◌+◌, ◌*◌, ◌-◌}
use Prim.Native.Char.{code}
use Prim.Native.String.{String}
use mathlib.Core.Path.{◌≡◌, refl}
use mathlib.Core.Logic.{◌↔◌}
use mathlib.Core.Bool.{Bool, true, false, ◌&&◌, ◌||◌}
use mathlib.Core.List.{List, [], ◌∷◌}
use native.Mathlib.Omega.{arith}
use ghc_gateway.Base.Tests.{leb, ◌==◌, if◌then◌else◌}

abbrev pub Text : Type 0
Text = List ℕ

-- A literal of the source; each is ASCII.
abbrev pub text : String → Text
text String.[] = []
text (String.◌∷◌ c s) = code c ∷ text s

-- `left === right` on strings
unfoldable pub same_text : Text → Text → Bool
same_text [] [] = true
same_text [] (y ∷ ys) = false
same_text (x ∷ xs) [] = false
same_text (x ∷ xs) (y ∷ ys) = x == y && same_text xs ys

pub same_text_iff : (s t : Text) → (same_text s t ≡ true) ↔ (s ≡ t)
unfolding same_text
same_text_iff [] [] = ground arith
same_text_iff [] (y ∷ ys) = ground arith
same_text_iff (x ∷ xs) [] = ground arith
same_text_iff (x ∷ xs) (y ∷ ys) = ground (arith, same_text_iff xs ys)

pub same_text_self : (s : Text) → same_text s s ≡ true
same_text_self s = (same_text_iff s s).1 refl

-- `text.startsWith(prefix)`
unfoldable pub starts_with : Text → Text → Bool
starts_with s [] = true
starts_with [] (y ∷ ys) = false
starts_with (x ∷ xs) (y ∷ ys) = x == y && starts_with xs ys

-- The white space that `trim` removes.
is_white : ℕ → Bool
is_white c =
    leb 0x09 c && leb c 0x0d
    || c == 0x20
    || c == 0xa0
    || c == 0x1680
    || leb 0x2000 c && leb c 0x200a
    || c == 0x2028
    || c == 0x2029
    || c == 0x202f
    || c == 0x205f
    || c == 0x3000
    || c == 0xfeff

trim_start : Text → Text
unfolding is_white
trim_start [] = []
trim_start (c ∷ s) = let rest = trim_start s in if is_white c then rest else c ∷ s

trim_end : Text → Text
unfolding is_white
trim_end [] = []
trim_end (c ∷ s) = elim (trim_end s) [
  | [] ↦ (if is_white c then [] else c ∷ [])
  | d ∷ r ↦ c ∷ d ∷ r
]

unfoldable pub trim : Text → Text
unfolding trim_start trim_end
trim s = trim_end (trim_start s)

-- `toLowerCase`, where the result is compared with ASCII letters other than `k`: no letter beyond
-- ASCII becomes one of those.
unfoldable pub to_lower_case : Text → Text
to_lower_case [] = []
to_lower_case (c ∷ s) = (if leb 0x41 c && leb c 0x5a then c + 32 else c) ∷ to_lower_case s

abbrev is_digit : ℕ → Bool
is_digit c = leb 0x30 c && leb c 0x39

-- `/^[0-9]+$/`
unfoldable pub all_digits : Text → Bool
all_digits [] = true
all_digits (c ∷ s) = is_digit c && all_digits s

unfoldable pub is_decimal : Text → Bool
unfolding all_digits
is_decimal [] = false
is_decimal (c ∷ s) = all_digits (c ∷ s)

-- `Number.parseInt(text, 10)` on digits, exactly: where the source compares it with a bound
-- that a double holds, a number that a double rounds compares alike.
unfoldable pub decimal_value : ℕ → Text → ℕ
decimal_value value [] = value
decimal_value value (c ∷ s) = decimal_value (value * 10 + (c - 0x30)) s
