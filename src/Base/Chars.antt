-- ===== src/Base/Chars.antt =====
-- Text as a list of Unicode scalar values, with the tests of Rust's `str` that the program uses.
use Prim.Native.Nat.{ℕ, ◌+◌}
use Prim.Native.Char.{code}
use Prim.Native.String.{String}
use mathlib.Core.Path.{◌≡◌, refl}
use mathlib.Core.Logic.{◌↔◌}
use mathlib.Core.Bool.{Bool, true, false, ◌&&◌, ◌||◌}
use mathlib.Core.Option.{Option, none, some}
use mathlib.Core.List.{List, [], ◌∷◌, map, reverse}
use native.Mathlib.Omega.{arith}
use authguard.Base.Tests.{ltb, leb, eqb, if◌then◌else◌}
use authguard.Base.Lists.{any}

abbrev pub Text : Type 0
Text = List ℕ

-- A literal of the source.
abbrev pub codes : String → Text
codes String.[] = []
codes (String.◌∷◌ c s) = code c ∷ codes s

infix 50 ◌==◌
unfoldable pub ◌==◌ : Text → Text → Bool
[] == [] = true
(a ∷ s) == (b ∷ t) = eqb a b && (s == t)
_ == _ = false

pub eq_iff : (s t : Text) → ((s == t) ≡ true) ↔ (s ≡ t)
unfolding ◌==◌
eq_iff [] [] = ground arith
eq_iff [] (b ∷ t) = ground arith
eq_iff (a ∷ s) [] = ground arith
eq_iff (a ∷ s) (b ∷ t) = ground (arith, eq_iff s t)

pub eq_refl : (s : Text) → (s == s) ≡ true
eq_refl s = (eq_iff s s).1 refl

pub eq_comm : (s t : Text) → (s == t) ≡ (t == s)
eq_comm s t = ground (arith, eq_iff s t, eq_iff t s)

-- `str::len`, the bytes of the UTF-8 form.
unfoldable pub len_utf8 : ℕ → ℕ
len_utf8 c = if ltb c 0x80 then 1 else if ltb c 0x800 then 2 else if ltb c 0x10000 then 3 else 4

unfoldable pub len : Text → ℕ
unfolding len_utf8
len [] = 0
len (c ∷ s) = len_utf8 c + len s

abbrev pub contains_char : ℕ → Text → Bool
contains_char c = any (eqb c)

-- `iter().any(|x| x == s)`, `HashSet::contains`
abbrev pub contains : Text → List Text → Bool
contains s = any (◌==◌ s)

abbrev pub starts_with_char : ℕ → Text → Bool
starts_with_char c [] = false
starts_with_char c (x ∷ s) = eqb x c

abbrev pub ends_with_char : ℕ → Text → Bool
ends_with_char c [] = false
ends_with_char c (x ∷ []) = eqb x c
ends_with_char c (x ∷ y ∷ s) = ends_with_char c (y ∷ s)

-- `str::strip_prefix`
unfoldable pub strip_prefix : Text → Text → Option Text
strip_prefix [] s = some s
strip_prefix (p ∷ ps) [] = none
strip_prefix (p ∷ ps) (x ∷ s) = if eqb p x then strip_prefix ps s else none

-- `str::ends_with`
unfoldable pub ends_with : Text → Text → Bool
unfolding ◌==◌
ends_with suffix [] = suffix == []
ends_with suffix (x ∷ s) = suffix == (x ∷ s) || ends_with suffix s

abbrev pub is_ascii_upper : ℕ → Bool
is_ascii_upper c = leb b'A' c && leb c b'Z'

abbrev pub is_ascii_alphanumeric : ℕ → Bool
is_ascii_alphanumeric c =
    (leb b'0' c && leb c b'9') || is_ascii_upper c || (leb b'a' c && leb c b'z')

-- `char::to_ascii_lowercase`
abbrev pub lower_char : ℕ → ℕ
lower_char c = if is_ascii_upper c then c + 32 else c

abbrev pub to_ascii_lowercase : Text → Text
to_ascii_lowercase = map lower_char

abbrev pub eq_ignore_ascii_case : Text → Text → Bool
eq_ignore_ascii_case s t = to_ascii_lowercase s == to_ascii_lowercase t

-- `char::is_whitespace`, the property White_Space of Unicode.
unfoldable pub is_whitespace : ℕ → Bool
is_whitespace c =
    (leb 9 c && leb c 13)
    || eqb c 32
    || eqb c 0x85
    || eqb c 0xa0
    || eqb c 0x1680
    || (leb 0x2000 c && leb c 0x200a)
    || eqb c 0x2028
    || eqb c 0x2029
    || eqb c 0x202f
    || eqb c 0x205f
    || eqb c 0x3000

-- Drops a prefix of characters that pass the test.
unfoldable pub trim_start_matches : (ℕ → Bool) → Text → Text
trim_start_matches p [] = []
trim_start_matches p (c ∷ s) = let rest = trim_start_matches p s in if p c then rest else c ∷ s

unfoldable pub trim_matches : (ℕ → Bool) → Text → Text
unfolding trim_start_matches
trim_matches p s = reverse (trim_start_matches p (reverse (trim_start_matches p s)))

unfoldable pub trim : Text → Text
unfolding trim_matches is_whitespace
trim s = trim_matches is_whitespace s

-- `s.trim().is_empty()`
unfoldable pub is_blank : Text → Bool
unfolding trim
is_blank s = trim s == []
