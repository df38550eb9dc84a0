-- ===== src/Base/Strings.antt =====
-- JavaScript strings as lists of UTF-16 code units, so that `length` is the source's `.length`.
use Prim.Native.Char.{code}
use Prim.Native.String.{String}
use Prim.Native.Nat.{ℕ, zero, suc, ◌+◌, ◌-◌, ◌/◌, ◌%◌}
use mathlib.Core.Path.{◌≡◌, refl, ap}
use mathlib.Core.Logic.{◌↔◌}
use mathlib.Core.Bool.{Bool, true, false, ◌&&◌, ◌||◌}
use mathlib.Core.List.{List, [], ◌∷◌, ◌++◌, map}
use native.Mathlib.Omega.{arith}
use slaif_connect.Base.Tests.{ltb, leb, ◌==◌, if◌then◌else◌}
use slaif_connect.Base.Lists.{all, length}

abbrev pub Text : Type 0
Text = List ℕ

-- A literal of the source (ASCII, so one code unit for each character).
abbrev pub lit : String → Text
lit String.[] = []
lit (String.◌∷◌ c s) = code c ∷ lit s

-- `a === b` on strings.
unfoldable pub text_eq : Text → Text → Bool
text_eq [] [] = true
text_eq (a ∷ s) (b ∷ t) = a == b && text_eq s t
text_eq [] (b ∷ t) = false
text_eq (a ∷ s) [] = false

pub text_eq_sound : (s t : Text) → text_eq s t ≡ true → s ≡ t
unfolding text_eq
text_eq_sound [] [] h = refl
text_eq_sound (a ∷ s) (b ∷ t) h = ground (arith, text_eq_sound s t)
text_eq_sound [] (b ∷ t) h = cc
text_eq_sound (a ∷ s) [] h = cc

pub text_eq_refl : (s : Text) → text_eq s s ≡ true
unfolding text_eq
text_eq_refl [] = refl
text_eq_refl (a ∷ s) = ground (arith, text_eq_refl s)

pub text_eq_iff : (s t : Text) → (text_eq s t ≡ true) ↔ (s ≡ t)
text_eq_iff s t = (text_eq_sound s t, λ e. rw e (text_eq_refl t))

-- `list.includes(s)` on a list of strings.
unfoldable pub includes : List Text → Text → Bool
includes [] s = false
includes (t ∷ ts) s = text_eq t s || includes ts s

-- `s.startsWith(p)`.
unfoldable pub starts_with : Text → Text → Bool
starts_with s [] = true
starts_with [] (c ∷ p) = false
starts_with (d ∷ s) (c ∷ p) = d == c && starts_with s p

-- What is left of a string behind a prefix of this length is tested by the regular expressions.
abbrev pub is_digit : ℕ → Bool
is_digit c = leb b'0' c && leb c b'9'

abbrev pub is_lower : ℕ → Bool
is_lower c = leb b'a' c && leb c b'z'

abbrev pub is_upper : ℕ → Bool
is_upper c = leb b'A' c && leb c b'Z'

-- `[A-Za-z0-9_-]`, which is also `[a-z0-9_-]` under the flag `i`.
unfoldable pub is_word : ℕ → Bool
is_word c = is_lower c || is_upper c || is_digit c || c == b'_' || c == b'-'

-- `toLowerCase` on one code unit of an ASCII string.
unfoldable pub lower : ℕ → ℕ
lower c = if is_upper c then c + 32 else c

-- `s.toLowerCase()` on the strings that the program lowers, which are ASCII.
abbrev pub to_lower : Text → Text
to_lower = map lower

pub lower_idem : (c : ℕ) → lower (lower c) ≡ lower c
unfolding lower
lower_idem c = ground arith

pub to_lower_idem : (s : Text) → to_lower (to_lower s) ≡ to_lower s
to_lower_idem [] = refl
to_lower_idem (c ∷ s) = cc (lower_idem c, to_lower_idem s)

pub is_word-lower : (c : ℕ) → is_word (lower c) ≡ is_word c
unfolding is_word lower
is_word-lower c = ground arith

-- `^[class]{lo,hi}$`
unfoldable pub class_match : (ℕ → Bool) → ℕ → ℕ → Text → Bool
class_match cls lo hi s = all cls s && leb lo (length s) && leb (length s) hi

length-map : (s : Text) → length (to_lower s) ≡ length s
length-map [] = refl
length-map (c ∷ s) = ap suc (length-map s)

all-to_lower : (s : Text) → all is_word (to_lower s) ≡ all is_word s
all-to_lower [] = refl
all-to_lower (c ∷ s) = cc (is_word-lower c, all-to_lower s)

-- Lowering keeps a match of `[a-z0-9_-]{lo,hi}` under `i`.
pub class_match-to_lower :
    (lo hi : ℕ) (s : Text) → class_match is_word lo hi (to_lower s) ≡ class_match is_word lo hi s
unfolding class_match
class_match-to_lower lo hi s = rw (all-to_lower s, length-map s)

-- `^prefix[class]{lo,hi}$`
unfoldable pub prefix_match : Text → (ℕ → Bool) → ℕ → ℕ → Text → Bool
unfolding class_match
prefix_match [] cls lo hi s = class_match cls lo hi s
prefix_match (p ∷ ps) cls lo hi [] = false
prefix_match (p ∷ ps) cls lo hi (c ∷ s) = p == c && prefix_match ps cls lo hi s

-- `s.split(c)`
unfoldable pub split : ℕ → Text → List Text
split c [] = [] ∷ []
split c (d ∷ s) = elim (split c s) [
  | [] ↦ []
  | part ∷ parts ↦ if d == c then [] ∷ part ∷ parts else (d ∷ part) ∷ parts
]

-- `toUpperCase` on one code unit of an ASCII string.
unfoldable pub upper : ℕ → ℕ
upper c = if leb b'a' c && leb c b'z' then c - 32 else c

-- `String(n)` for a natural number below ten to the power of the fuel
unfoldable pub decimal_digits : ℕ → ℕ → Text
decimal_digits zero n = []
decimal_digits (suc f) n =
    if ltb n 10 then (b'0' + n) ∷ [] else decimal_digits f (n / 10) ++ ((b'0' + n % 10) ∷ [])

-- `s.includes(t)`
unfoldable pub contains : Text → Text → Bool
contains [] t = starts_with [] t
contains (c ∷ s) t = starts_with (c ∷ s) t || contains s t

-- The units that `trim` takes away
abbrev pub is_blank : ℕ → Bool
is_blank c =
    (leb 9 c && leb c 13)
    || c == 32
    || c == 160
    || c == 5760
    || (leb 8192 c && leb c 8202)
    || c == 8232
    || c == 8233
    || c == 8239
    || c == 8287
    || c == 12288
    || c == 65279

unfoldable pub trim_start : Text → Text
trim_start [] = []
trim_start (c ∷ s) = if is_blank c then trim_start s else c ∷ s

unfoldable pub trim_end : Text → Text
trim_end [] = []
trim_end (c ∷ s) = elim (trim_end s) [ [] ↦ if is_blank c then [] else c ∷ [] | d ∷ t ↦ c ∷ d ∷ t ]

abbrev pub trim : Text → Text
trim s = trim_end (trim_start s)
