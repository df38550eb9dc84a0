-- ===== src/Policy/Command.antt =====
-- The command that `buildRemoteCommand` of extension/js/slaif_policy.js builds.
use slaif_connect.Base.{
  contains, ℕ, ◌≡◌, inl, inr, refl, Bool, true, false, not, ◌||◌, ◌&&◌, zero, suc, [], ◌∷◌, ◌++◌,
  Text, lit, arith, all, starts_with, ◌==◌, is_word, class_match, prefix_match, ok, guards_iff,
  guards->>-eq-ok, ok_inj, Bool-cases,
}
use slaif_connect.Base.Value.{Value, undef, null, bool, num, str, arr, obj}
use slaif_connect.Policy.{
  placeholder, has_other_placeholder, is_control, any_unit, validate_remote_command_template,
  replace_from, build_remote_command,
}

abbrev pub opening : Text
opening = b'$' ∷ b'{' ∷ []

is_word-plain :
    (c : ℕ)
    → is_word c ≡ true
    → ((c == b'$') ≡ false) × ((c == b'{') ≡ false) × (is_control c ≡ false)
unfolding is_word
is_word-plain c h = (ground arith, ground arith, ground arith)

any_unit-append :
    (p : ℕ → Bool) (s t : Text)
    → any_unit p s ≡ false
    → any_unit p t ≡ false
    → any_unit p (s ++ t) ≡ false
unfolding any_unit
any_unit-append p [] t h k = k
any_unit-append p (c ∷ s) t h k =
    let first : p c ≡ false = ground arith in
    let rest : any_unit p s ≡ false = ground arith in rw first (any_unit-append p s t rest k)

words-any_unit : (s : Text) → all is_word s ≡ true → any_unit is_control s ≡ false
unfolding any_unit
words-any_unit [] h = refl
words-any_unit (c ∷ s) h =
    let word : is_word c ≡ true = ground arith in
    let rest : all is_word s ≡ true = ground arith in
    rw ((is_word-plain c word).2) (words-any_unit s rest)

-- Words in front open no placeholder.
words-contains :
    (s t : Text)
    → all is_word s ≡ true
    → contains t opening ≡ false
    → contains (s ++ t) opening ≡ false
unfolding contains starts_with
words-contains [] t h k = k
words-contains (c ∷ s) t h k =
    let word : is_word c ≡ true = ground arith in
    let rest : all is_word s ≡ true = ground arith in
    rw ((is_word-plain c word).0) (words-contains s t rest k)

replace_from-any_unit :
    (id : Text) (n : ℕ) (s : Text)
    → all is_word id ≡ true
    → any_unit is_control s ≡ false
    → any_unit is_control (replace_from id n s) ≡ false
unfolding replace_from any_unit
replace_from-any_unit id n [] words h = refl
replace_from-any_unit id (suc n) (c ∷ s) words h =
    let rest : any_unit is_control s ≡ false = ground arith in
    replace_from-any_unit id n s words rest
replace_from-any_unit id zero (c ∷ s) words h =
    let first : is_control c ≡ false = ground arith in
    let rest : any_unit is_control s ≡ false = ground arith in
    elim (Bool-cases (starts_with (c ∷ s) placeholder)) [
      | inl hit ↦ rw hit (
          any_unit-append is_control id (replace_from id 12 s) (words-any_unit id words)
            (replace_from-any_unit id 12 s words rest))
      | inr miss ↦ rw (miss, first) (replace_from-any_unit id zero s words rest)
    ]

-- What was replaced starts with a brace only if the string did.
replace_from-brace :
    (d : ℕ) (id s : Text)
    → is_word d ≡ true
    → starts_with (replace_from (d ∷ id) zero s) (b'{' ∷ []) ≡ true
    → starts_with s (b'{' ∷ []) ≡ true
unfolding replace_from starts_with
replace_from-brace d id [] word h = cc
replace_from-brace d id (c ∷ s) word h = elim (Bool-cases (starts_with (c ∷ s) placeholder)) [
  | inl hit ↦
      let put : ((d == b'{') && true) ≡ true = rw hit at h in
      let other = (is_word-plain d word).1 in absurd (ground (arith, put, other))
  | inr miss ↦ rw miss at h
]

opens_false :
    (opens whole later : Bool)
    → ((opens && not whole) || later) ≡ false
    → whole ≡ false
    → opens ≡ false
opens_false opens true later h k = cc
opens_false true false later h k = cc
opens_false false false later h k = refl

-- A dollar sign and a brace come together only if they did before.
no_join :
    (dollar before after later : Bool)
    → (after ≡ true → before ≡ true)
    → (dollar && before) ≡ false
    → later ≡ false
    → ((dollar && after) || later) ≡ false
no_join false before after later came known k = k
no_join true before false later came known k = k
no_join true before true later came known k = absurd (ground (arith, came refl, known))

replace_from-contains :
    (d : ℕ) (id : Text) (n : ℕ) (s : Text)
    → all is_word (d ∷ id) ≡ true
    → has_other_placeholder s ≡ false
    → contains (replace_from (d ∷ id) n s) opening ≡ false
unfolding replace_from contains starts_with has_other_placeholder
replace_from-contains d id n [] words h = refl
replace_from-contains d id (suc n) (c ∷ s) words h =
    let rest : has_other_placeholder s ≡ false = ground arith in
    replace_from-contains d id n s words rest
replace_from-contains d id zero (c ∷ s) words h =
    let rest : has_other_placeholder s ≡ false = ground arith in
    elim (Bool-cases (starts_with (c ∷ s) placeholder)) [
      | inl hit ↦ rw hit (
          words-contains (d ∷ id) (replace_from (d ∷ id) 12 s) words
            (replace_from-contains d id 12 s words rest))
      | inr miss ↦
          let later = replace_from-contains d id zero s words rest in
          let known = opens_false (starts_with (c ∷ s) opening) _ _ h miss in
          rw miss (
            no_join (c == b'$') (starts_with s (b'{' ∷ []))
              (starts_with (replace_from (d ∷ id) zero s) (b'{' ∷ []))
              (contains (replace_from (d ∷ id) zero s) opening)
              (replace_from-brace d id s (ground (arith, words))) known later)
    ]

prefix_words : all is_word (lit "sess_") ≡ true
unfolding is_word
prefix_words = refl

prefix_match-words :
    (p : Text) (lo hi : ℕ) (s : Text)
    → all is_word p ≡ true
    → prefix_match p is_word lo hi s ≡ true
    → all is_word s ≡ true
unfolding prefix_match class_match
prefix_match-words [] lo hi s words h = ground arith
prefix_match-words (x ∷ p) lo hi [] words h = cc
prefix_match-words (x ∷ p) lo hi (c ∷ s) words h =
    let same : x ≡ c = ground arith in
    let word : is_word x ≡ true = ground arith in
    let more : all is_word p ≡ true = ground arith in
    let matched : prefix_match p is_word lo hi s ≡ true = ground arith in
    rw (← same, word) (prefix_match-words p lo hi s more matched)

-- A session id has a first unit, and all of them are those of words.
session_id_words :
    (id : Text)
    → prefix_match (lit "sess_") is_word 8 128 id ≡ true
    → (d : ℕ) × (rest : Text) × (id ≡ d ∷ rest) × (all is_word (d ∷ rest) ≡ true)
unfolding prefix_match
session_id_words [] h = cc
session_id_words (d ∷ rest) h =
    (d, rest, refl, prefix_match-words (lit "sess_") 8 128 (d ∷ rest) prefix_words h)

-- The command that is built of a template that was validated has no placeholder left, and no line
-- break and no zero.
pub build_remote_command-clean :
    (template alias command : Text) (id : Value) (pilot : Bool)
    → validate_remote_command_template (str template) alias pilot ≡ ok tt
    → build_remote_command template id ≡ ok command
    → (contains command opening ≡ false) × (any_unit is_control command ≡ false)
unfolding validate_remote_command_template build_remote_command
build_remote_command-clean template alias command (str id) pilot valid h =
    let (filled, (has_id, (others, (controls, more)))) = (guards_iff _).0 valid in
    let (tests, last) =
      guards->>-eq-ok
        ((not (prefix_match (lit "sess_") is_word 8 128 id), lit "invalid SLAIF session id: " ++ id)
          ∷ [])
        (ok (replace_from id zero template)) h in
    let (d, rest, is, words) = session_id_words id (ground (arith, tests.0)) in
    let made : replace_from id zero template ≡ command = ok_inj last in
    let of_unit : replace_from (d ∷ rest) zero template ≡ command = rw (← is) made in
    rw (← of_unit) (
      replace_from-contains d rest zero template words others,
      replace_from-any_unit (d ∷ rest) zero template words controls,
    )
build_remote_command-clean template alias command undef pilot valid h = cc
build_remote_command-clean template alias command null pilot valid h = cc
build_remote_command-clean template alias command (bool b) pilot valid h = cc
build_remote_command-clean template alias command (num n) pilot valid h = cc
build_remote_command-clean template alias command (arr xs) pilot valid h = cc
build_remote_command-clean template alias command (obj fs) pilot valid h = cc
