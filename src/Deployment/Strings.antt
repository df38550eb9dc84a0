-- ===== src/Deployment/Strings.antt =====
-- The strings that server/config/deployment_config.js reads. `print_number` is `String` on a number.
use slaif_connect.Base.{
  ℕ, Bool, true, false, not, ◌||◌, ◌&&◌, List, [], ◌∷◌, ◌++◌, map, Text, lit, ◌==◌, trim, is_word,
  class_match, split, Result, ok, ◌>>◌, guards, if◌then◌else◌,
}
use slaif_connect.Base.Value.{
  Value, Number, Items, undef, null, bool, num, str, arr, obj, nil, cons, is_falsy,
}

-- `s.replace(/\/$/, '')`
unfoldable pub drop_slash : Text → Text
drop_slash [] = []
drop_slash (c ∷ []) = if c == b'/' then [] else c ∷ []
drop_slash (c ∷ d ∷ s) = c ∷ drop_slash (d ∷ s)

-- `s.replace(/:+$/u, '')`
unfoldable pub drop_colons : Text → Text
drop_colons [] = []
drop_colons (c ∷ s) = elim (drop_colons s) [
  | [] ↦ if c == b':' then [] else c ∷ []
  | d ∷ t ↦ c ∷ d ∷ t
]

-- `list.filter(Boolean)` on strings
abbrev pub non_empty : List Text → List Text
non_empty [] = []
non_empty ([] ∷ ts) = non_empty ts
non_empty ((c ∷ s) ∷ ts) = (c ∷ s) ∷ non_empty ts

abbrev pub texts : List Text → Items
texts [] = nil
texts (t ∷ ts) = cons (str t) (texts ts)

-- `^\/[A-Za-z0-9/_-]{0,128}$`
unfoldable pub is_path : Text → Bool
is_path [] = false
is_path (c ∷ s) = c == b'/' && class_match (λ u. is_word u || u == b'/') 0 128 s

abbrev pub is_prefix_unit : ℕ → Bool
is_prefix_unit c = is_word c || c == b':'

abbrev pub is_truthy : Value → Bool
is_truthy v = not (is_falsy v)

module _ (print_number : Number → Text) where
  unfoldable mutual
    -- `String(v)` for a value of JSON, and for `undefined`
    pub text_from : Value → Text
    text_from (str s) = s
    text_from (num n) = print_number n
    text_from (bool true) = lit "true"
    text_from (bool false) = lit "false"
    text_from undef = lit "undefined"
    text_from null = lit "null"
    text_from (obj fs) = lit "[object Object]"
    text_from (arr nil) = []
    text_from (arr (cons v xs)) = element v ++ join xs

    -- An element of an array as `join` writes it
    pub element : Value → Text
    element undef = []
    element null = []
    element (str s) = s
    element (num n) = print_number n
    element (bool true) = lit "true"
    element (bool false) = lit "false"
    element (obj fs) = lit "[object Object]"
    element (arr nil) = []
    element (arr (cons v xs)) = element v ++ join xs

    pub join : Items → Text
    join nil = []
    join (cons v xs) = b',' ∷ (element v ++ join xs)

  unfoldable pub list_from_items : Items → List Text
  list_from_items nil = []
  list_from_items (cons v xs) = trim (text_from v) ∷ list_from_items xs

  unfoldable pub list_from : Value → List Text
  list_from (arr xs) = non_empty (list_from_items xs)
  list_from (str s) = non_empty (map trim (split b',' s))
  list_from _ = []

  unfoldable pub validate_redis_key_prefix : Value → Result Text Text
  validate_redis_key_prefix v =
      let prefix = trim (if is_falsy v then [] else text_from v) in
      guards ((not (class_match is_prefix_unit 1 64 prefix), lit "invalid_redis_key_prefix") ∷ [])
      >> ok (drop_colons prefix)
