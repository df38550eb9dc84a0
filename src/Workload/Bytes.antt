-- ===== src/Workload/Bytes.antt =====
-- How server/workloads/workload_protocol.js measures and inspects strings.
use slaif_connect.Base.{
  ℕ, ◌+◌, Bool, true, false, ◌||◌, ◌&&◌, [], ◌∷◌, Text, lit, leb, ◌==◌, starts_with, any,
  if◌then◌else◌,
}

-- The bytes of UTF-8 for one code unit that is no part of a surrogate pair.
abbrev unit_bytes : ℕ → ℕ
unit_bytes c = if leb c 127 then 1 else if leb c 2047 then 2 else 3

abbrev is_high : ℕ → Bool
is_high c = leb 55296 c && leb c 56319

abbrev is_low : ℕ → Bool
is_low c = leb 56320 c && leb c 57343

-- `Buffer.byteLength(value, 'utf8')`: a surrogate pair has four bytes, and one that is alone is
-- replaced by a character of three. `open_pair` tells that the unit before this one is a high
-- surrogate, of which three bytes are counted.
abbrev bytes_from : Bool → Text → ℕ
bytes_from open_pair [] = 0
bytes_from open_pair (c ∷ s) =
    let pairs = open_pair && is_low c in
    let rest = bytes_from (is_high c) s in (if pairs then 1 else unit_bytes c) + rest

unfoldable pub byte_length : Text → ℕ
byte_length s = bytes_from false s

-- `\s`
abbrev is_space : ℕ → Bool
is_space c =
    (leb 9 c && leb c 13)
    || (leb 8192 c && leb c 8202)
    || any (λ d. d == c) (32 ∷ 160 ∷ 5760 ∷ 8232 ∷ 8233 ∷ 8239 ∷ 8287 ∷ 12288 ∷ 65279 ∷ [])

-- `^\s*\S`
abbrev has_word : Text → Bool
has_word [] = false
has_word (c ∷ s) = let rest = has_word s in if is_space c then rest else true

-- `^\s+\S+`
abbrev spaced_word : Text → Bool
spaced_word [] = false
spaced_word (c ∷ s) = is_space c && has_word s

-- `^at\s+\S+`
abbrev at_word : Text → Bool
at_word (c ∷ d ∷ s) = c == b'a' && (d == b't' && spaced_word s)
at_word _ = false

-- `^\s*at\s+\S+`
abbrev at_frame : Text → Bool
at_frame [] = false
at_frame (c ∷ s) = let rest = at_frame s in if is_space c then rest else at_word (c ∷ s)

-- `/\n\s*at\s+\S+/u`
abbrev has_frame : Text → Bool
has_frame [] = false
has_frame (c ∷ s) = (c == 10 && at_frame s) || has_frame s

-- The two tests of `assertNoStackTrace`
unfoldable pub is_stack_trace : Text → Bool
is_stack_trace s =
    has_frame s
    || any (starts_with s) (lit "Error:" ∷ lit "TypeError:" ∷ lit "ReferenceError:" ∷ [])
