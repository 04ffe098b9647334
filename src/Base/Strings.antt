-- ===== src/Base/Strings.antt =====
-- JavaScript strings: lists of UTF-16 code units, with the string methods that the source calls.
use Prim.Native.Char.{code}
use Prim.Native.Nat.{ℕ, zero, suc, ◌+◌, ◌/◌, ◌%◌}
use Prim.Native.String.{String}
use mathlib.Core.Path.{◌≡◌, refl}
use mathlib.Core.Bool.{Bool, true, false, not, ◌&&◌, ◌||◌}
use mathlib.Core.Logic.{◌↔◌}
use mathlib.Core.Option.{Option, none, some}
use mathlib.Core.List.{List, [], ◌∷◌, ◌++◌}
use native.Mathlib.Omega.{arith}
use farfield.Base.Tests.{◌==◌, leb, ltb, if◌then◌else◌}

abbrev pub Text : Type 0
Text = List ℕ

-- A string literal of the source; all of its literals lie in the basic multilingual plane, where a
-- character is one code unit.
unfoldable pub text : String → Text
text String.[] = []
text (String.◌∷◌ c s) = code c ∷ text s

-- `s === t`
unfoldable pub text_eq : Text → Text → Bool
text_eq [] [] = true
text_eq [] (_ ∷ _) = false
text_eq (_ ∷ _) [] = false
text_eq (a ∷ s) (b ∷ t) = a == b && text_eq s t

pub text_eq_refl : (s : Text) → text_eq s s ≡ true
unfolding text_eq
text_eq_refl [] = refl
text_eq_refl (a ∷ s) = ground (arith, text_eq_refl s)

pub text_eq_sound : (s t : Text) → text_eq s t ≡ true → s ≡ t
unfolding text_eq
text_eq_sound [] [] h = refl
text_eq_sound [] (_ ∷ _) h = cc
text_eq_sound (_ ∷ _) [] h = cc
text_eq_sound (a ∷ s) (b ∷ t) h = ground (arith, text_eq_sound s t)

pub text_eq_iff : (s t : Text) → (text_eq s t ≡ true) ↔ (s ≡ t)
text_eq_iff s t = (text_eq_sound s t, λ e. rw e (text_eq_refl t))

-- A string as a condition: `""` is false.
abbrev pub is_truthy : Text → Bool
is_truthy [] = false
is_truthy (_ ∷ _) = true

-- An optional string as a condition: `undefined`, `null` and `""` are false.
abbrev pub is_present : Option Text → Bool
is_present none = false
is_present (some s) = is_truthy s

-- `a === b` on strings that may be null.
unfoldable pub option_eq : Option Text → Option Text → Bool
option_eq none none = true
option_eq none (some _) = false
option_eq (some _) none = false
option_eq (some s) (some t) = text_eq s t

pub option_eq_iff : (a b : Option Text) → (option_eq a b ≡ true) ↔ (a ≡ b)
unfolding option_eq
option_eq_iff none none = ground arith
option_eq_iff none (some _) = ground arith
option_eq_iff (some _) none = ground arith
option_eq_iff (some s) (some t) = ground (arith, text_eq_iff s t)

-- `s.startsWith(p)`
unfoldable pub starts_with : Text → Text → Bool
starts_with s [] = true
starts_with [] (_ ∷ _) = false
starts_with (a ∷ s) (b ∷ p) = a == b && starts_with s p

-- `s.includes(p)`
unfoldable pub includes : Text → Text → Bool
unfolding starts_with
includes [] p = starts_with [] p
includes (a ∷ s) p = starts_with (a ∷ s) p || includes s p

-- `xs.includes(s)` on an array of strings.
unfoldable pub mem_text : Text → List Text → Bool
mem_text s [] = false
mem_text s (t ∷ ts) = text_eq t s || mem_text s ts

-- `set.add(s)` on a Set of strings, whose members stand in insertion order.
unfoldable pub add_text : Text → List Text → List Text
unfolding mem_text
add_text s ts = if mem_text s ts then ts else ts ++ s ∷ []

-- `parts.join(sep)`
unfoldable pub join : Text → List Text → Text
join sep [] = []
join sep (s ∷ []) = s
join sep (s ∷ t ∷ ts) = s ++ (sep ++ join sep (t ∷ ts))

-- What `/\s/` and `trim` take for white space.
unfoldable pub is_space : ℕ → Bool
is_space c =
    (leb 9 c && leb c 13)
    || c == 32
    || c == 160
    || c == 0x1680
    || (leb 0x2000 c && leb c 0x200a)
    || c == 0x2028
    || c == 0x2029
    || c == 0x202f
    || c == 0x205f
    || c == 0x3000
    || c == 0xfeff

unfoldable pub trim_start : Text → Text
trim_start [] = []
trim_start (c ∷ s) = let rest = trim_start s in if is_space c then rest else c ∷ s

unfoldable pub trim_end : Text → Text
trim_end [] = []
trim_end (c ∷ s) =
    let rest = trim_end s in if is_space c && not (is_truthy rest) then [] else c ∷ rest

-- `s.trim()`
unfoldable pub trim : Text → Text
trim s = trim_end (trim_start s)

-- `String(n)` for a natural number; `n + 1` rounds are enough.
unfoldable pub decimal_from : ℕ → ℕ → Text
decimal_from zero n = []
decimal_from (suc rounds) n =
    let more = decimal_from rounds (n / 10) in
    if ltb n 10 then (n + 48) ∷ [] else more ++ (n % 10 + 48) ∷ []

unfoldable pub decimal : ℕ → Text
decimal n = decimal_from (n + 1) n
