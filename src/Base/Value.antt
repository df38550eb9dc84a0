-- ===== src/Base/Value.antt =====
-- Values of JavaScript, as far as the program inspects what it is handed.
use Prim.Native.Nat.{ℕ}
use mathlib.Core.Bool.{Bool, true, false, not, ◌&&◌, ◌||◌}
use mathlib.Core.List.{List, [], ◌∷◌}
use mathlib.Core.Option.{Option, none, some}
use slaif_connect.Base.Tests.{leb, ltb, ◌==◌, if◌then◌else◌}
use slaif_connect.Base.Strings.{Text, text_eq, includes}

-- `negsuc n` is -(n + 1).
pub data ℤ : Type 0 where
  pos : ℕ → ℤ
  negsuc : ℕ → ℤ

-- `a <= b` on integers
abbrev pub leb_ℤ : ℤ → ℤ → Bool
leb_ℤ (pos a) (pos b) = leb a b
leb_ℤ (pos a) (negsuc b) = false
leb_ℤ (negsuc a) (pos b) = true
leb_ℤ (negsuc a) (negsuc b) = leb b a

-- A number of JavaScript. `frac z d` lies strictly between z and z + 1, and `d` tells apart the
-- numbers between the same integers; `infinity true` is the positive one.
pub data Number : Type 0 where
  int : ℤ → Number
  frac : ℤ → ℕ → Number
  nan : Number
  infinity : Bool → Number

mutual
  -- The own enumerable fields of an object, in their order
  pub data Fields : Type 0 where
    field : Text → Value → Fields → Fields
    end : Fields

  -- The elements of an array
  pub data Items : Type 0 where
    cons : Value → Items → Items
    nil : Items

  pub data Value : Type 0 where
    obj : Fields → Value
    undef : Value
    arr : Items → Value
    bool : Bool → Value
    null : Value
    str : Text → Value
    num : Number → Value

-- `Number.isInteger(v) && lo <= v && v <= hi`, with the number where it holds (0 ≤ lo).
abbrev pub integer_in : ℕ → ℕ → Value → Option ℕ
integer_in lo hi (num (int (pos n))) = if leb lo n && leb n hi then some n else none
integer_in lo hi _ = none

-- `Number.isInteger(v) && v > 0`
abbrev pub positive_integer : Number → Option ℕ
positive_integer (int (pos n)) = if ltb 0 n then some n else none
positive_integer _ = none

-- `o[key]` on the fields of an object; a later field of a key hides none, as keys are distinct.
unfoldable pub get_field : Text → Fields → Value
get_field k end = undef
get_field k (field j v fs) = if text_eq j k then v else get_field k fs

-- `v[key]` on a value that is no `undefined` and no `null`.
abbrev pub property : Text → Value → Value
property k (obj fs) = get_field k fs
property k _ = undef

-- `Number.isInteger(v) && v >= lo`
abbrev pub integer_from : ℕ → Value → Option ℕ
integer_from lo (num (int (pos n))) = if leb lo n then some n else none
integer_from lo _ = none

-- `value === text`, `list.includes(value)` for a list of strings, and `Set.has`.
abbrev pub is_text : Text → Value → Bool
is_text t (str s) = text_eq s t
is_text t _ = false

abbrev pub is_one_of : List Text → Value → Bool
is_one_of ts (str s) = includes ts s
is_one_of ts _ = false

abbrev pub is_undefined : Value → Bool
is_undefined undef = true
is_undefined _ = false

-- `typeof value === 'string' && pattern.test(value)`
abbrev pub text_matches : (Text → Bool) → Value → Bool
text_matches p (str s) = p s
text_matches p _ = false

-- `value === 1`
abbrev pub is_one : Value → Bool
is_one (num (int (pos n))) = n == 1
is_one _ = false

-- `Number.isInteger(v) && v >= lo && v <= hi`
abbrev pub is_integer_in : ℕ → ℕ → Value → Bool
is_integer_in lo hi (num (int (pos n))) = leb lo n && leb n hi
is_integer_in lo hi _ = false

-- `value === true`
abbrev pub is_true : Value → Bool
is_true (bool b) = b
is_true _ = false

-- `!value`
abbrev pub is_falsy : Value → Bool
is_falsy undef = true
is_falsy null = true
is_falsy (bool b) = not b
is_falsy (num nan) = true
is_falsy (num (int (pos n))) = n == 0
is_falsy (num n) = false
is_falsy (str []) = true
is_falsy (str (c ∷ s)) = false
is_falsy (arr xs) = false
is_falsy (obj fs) = false

-- `Object.hasOwn(o, key)`
unfoldable pub has_key : Text → Fields → Bool
has_key key end = false
has_key key (field j v fs) = text_eq j key || has_key key fs

-- `Boolean(value) && typeof value === 'object' && !Array.isArray(value)`
abbrev pub is_plain_object : Value → Bool
is_plain_object (obj fs) = true
is_plain_object _ = false

-- `typeof value === 'string'`
abbrev pub is_string : Value → Bool
is_string (str s) = true
is_string _ = false

-- The text of a value that is a string
abbrev pub text_of : Value → Text
text_of (str s) = s
text_of _ = []

-- The number of a value that is a natural number
abbrev pub nat_of : Value → ℕ
nat_of (num (int (pos n))) = n
nat_of _ = 0

-- The fields of a value that is an object
abbrev pub fields_of : Value → Fields
fields_of (obj fs) = fs
fields_of _ = end
