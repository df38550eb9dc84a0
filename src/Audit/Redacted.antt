-- ===== src/Audit/Redacted.antt =====
-- What an event of server/logging/audit_log.js shows under sensitive keys.
use slaif_connect.Base.{
  contains, ℕ, ◌≡◌, refl, sym, Bool, true, false, ◌||◌, suc, [], ◌∷◌, Text, lit, arith, starts_with,
  lower, ok, guards->>-eq-ok, ok_inj, if◌then◌else◌,
}
use slaif_connect.Base.Value.{
  Value, Items, Fields, undef, null, bool, num, str, arr, obj, nil, cons, end, field,
}
use slaif_connect.Audit.{
  Treatment, keep_fingerprint, hide_token, hide, look_inside, treatment, treatment_of, line_of,
  contains_one, has_redis_url, is_fingerprint_key, is_token_key, is_payload_key,
  is_safe_fingerprint, redacted, redacted_as, index_key, sanitize_value, sanitize_items,
  sanitize_event, drop_undefined, event_fields, made_event, make_audit_event,
}

mutual
  -- The field with this key and this value stands in the value, at any depth.
  pub data Stands (key : Text) (v : Value) : Value → Type 0 where
    in_array : {xs : Items} → StandsItem key v xs → Stands key v (arr xs)
    in_object : {fs : Fields} → StandsField key v fs → Stands key v (obj fs)

  pub data StandsItem (key : Text) (v : Value) : Items → Type 0 where
    first_item : {w : Value} {xs : Items} → Stands key v w → StandsItem key v (cons w xs)
    later_item : {w : Value} {xs : Items} → StandsItem key v xs → StandsItem key v (cons w xs)

  pub data StandsField (key : Text) (v : Value) : Fields → Type 0 where
    here : {fs : Fields} → StandsField key v (field key v fs)
    below : {j : Text} {w : Value} {fs : Fields} → Stands key v w → StandsField key v (field j w fs)
    later_field :
        {j : Text} {w : Value} {fs : Fields}
        → StandsField key v fs
        → StandsField key v (field j w fs)

-- A key that one of the three patterns matches
abbrev pub is_sensitive : Text → Bool
is_sensitive key = is_fingerprint_key key || is_token_key key || is_payload_key key

module _ (fingerprint : Text → Text) where
  -- A mark, the fingerprint of a token, or a string that is a fingerprint as it stands
  pub data IsRedacted : Value → Type 0 where
    nothing_shown : IsRedacted redacted
    token_shown : (s : Text) → IsRedacted (redacted_as (fingerprint s))
    print_shown : (s : Text) → is_safe_fingerprint s ≡ true → IsRedacted (str s)

  abbrev Hides : Text → Value → Type 0
  Hides key v = is_sensitive key ≡ true → IsRedacted v

  -- No key of a mark is a sensitive one.
  plain_mark : is_sensitive (lit "redacted") ≡ false
  unfolding is_fingerprint_key is_token_key is_payload_key contains contains_one has_redis_url
      line_of starts_with lower
  plain_mark = refl

  plain_fingerprint : is_sensitive (lit "fingerprint") ≡ false
  unfolding is_fingerprint_key is_token_key is_payload_key contains contains_one has_redis_url
      line_of starts_with lower
  plain_fingerprint = refl

  redacted-Hides : (key : Text) (v : Value) → Stands key v redacted → Hides key v
  redacted-Hides key v (in_object here) sensitive = absurd (ground (arith, plain_mark))
  redacted-Hides key v (in_object (below x)) sensitive = elim x [ ]
  redacted-Hides key v (in_object (later_field x)) sensitive = elim x [ ]

  redacted_as-Hides :
      (print key : Text) (v : Value) → Stands key v (redacted_as print) → Hides key v
  redacted_as-Hides print key v (in_object here) sensitive = absurd (ground (arith, plain_mark))
  redacted_as-Hides print key v (in_object (below x)) sensitive = elim x [ ]
  redacted_as-Hides print key v (in_object (later_field here)) sensitive =
      absurd (ground (arith, plain_fingerprint))
  redacted_as-Hides print key v (in_object (later_field (below x))) sensitive = elim x [ ]
  redacted_as-Hides print key v (in_object (later_field (later_field x))) sensitive = elim x [ ]

  kept-IsRedacted :
      (s : Text) (safe : Bool)
      → is_safe_fingerprint s ≡ safe
      → IsRedacted (if safe then str s else redacted)
  kept-IsRedacted s true e = print_shown s e
  kept-IsRedacted s false e = nothing_shown

  -- What becomes of the value of a sensitive key
  keep_fingerprint-IsRedacted :
      (k : Text) (w : Value) → IsRedacted (sanitize_value fingerprint keep_fingerprint k w)
  unfolding sanitize_value
  keep_fingerprint-IsRedacted k (str s) = kept-IsRedacted s (is_safe_fingerprint s) refl
  keep_fingerprint-IsRedacted k undef = nothing_shown
  keep_fingerprint-IsRedacted k null = nothing_shown
  keep_fingerprint-IsRedacted k (bool b) = nothing_shown
  keep_fingerprint-IsRedacted k (num n) = nothing_shown
  keep_fingerprint-IsRedacted k (arr xs) = nothing_shown
  keep_fingerprint-IsRedacted k (obj fs) = nothing_shown

  hide_token-IsRedacted :
      (k : Text) (w : Value) → IsRedacted (sanitize_value fingerprint hide_token k w)
  unfolding sanitize_value
  hide_token-IsRedacted k (str []) = nothing_shown
  hide_token-IsRedacted k (str (c ∷ s)) = token_shown (c ∷ s)
  hide_token-IsRedacted k undef = nothing_shown
  hide_token-IsRedacted k null = nothing_shown
  hide_token-IsRedacted k (bool b) = nothing_shown
  hide_token-IsRedacted k (num n) = nothing_shown
  hide_token-IsRedacted k (arr xs) = nothing_shown
  hide_token-IsRedacted k (obj fs) = nothing_shown

  treatment-IsRedacted :
      (print token payload : Bool) (k : Text) (w : Value)
      → (print || token || payload) ≡ true
      → IsRedacted (sanitize_value fingerprint (treatment print token payload) k w)
  unfolding sanitize_value
  treatment-IsRedacted true token payload k w h = keep_fingerprint-IsRedacted k w
  treatment-IsRedacted false true payload k w h = hide_token-IsRedacted k w
  treatment-IsRedacted false false true k w h = nothing_shown
  treatment-IsRedacted false false false k w h = cc

  -- A redaction has no sensitive key inside.
  IsRedacted-Hides :
      (w : Value) → IsRedacted w → (key : Text) (v : Value) → Stands key v w → Hides key v
  IsRedacted-Hides w nothing_shown key v x = redacted-Hides key v x
  IsRedacted-Hides w (token_shown s) key v x = redacted_as-Hides (fingerprint s) key v x
  IsRedacted-Hides w (print_shown s e) key v x = elim x [ ]

  mutual
    unfolding sanitize_value

    value-Hides :
        (t : Treatment) (k : Text) (w : Value) (key : Text) (v : Value)
        → Stands key v (sanitize_value fingerprint t k w)
        → Hides key v
    value-Hides look_inside k (arr xs) key v (in_array x) = items-Hides k 0 xs key v x
    value-Hides look_inside k (obj fs) key v (in_object x) = fields-Hides fs key v x
    value-Hides look_inside k undef key v x = elim x [ ]
    value-Hides look_inside k null key v x = elim x [ ]
    value-Hides look_inside k (bool b) key v x = elim x [ ]
    value-Hides look_inside k (num n) key v x = elim x [ ]
    value-Hides look_inside k (str s) key v x = elim x [ ]
    value-Hides keep_fingerprint k w key v x =
        IsRedacted-Hides _ (keep_fingerprint-IsRedacted k w) key v x
    value-Hides hide_token k w key v x = IsRedacted-Hides _ (hide_token-IsRedacted k w) key v x
    value-Hides hide k w key v x = redacted-Hides key v x

    items-Hides :
        (k : Text) (i : ℕ) (xs : Items) (key : Text) (v : Value)
        → StandsItem key v (sanitize_items fingerprint k i xs)
        → Hides key v
    items-Hides k i (cons w xs) key v (first_item x) =
        value-Hides (treatment_of (index_key k i)) (index_key k i) w key v x
    items-Hides k i (cons w xs) key v (later_item x) = items-Hides k (suc i) xs key v x
    items-Hides k i nil key v x = elim x [ ]

    fields-Hides :
        (fs : Fields) (key : Text) (v : Value)
        → StandsField key v (sanitize_event fingerprint fs)
        → Hides key v
    fields-Hides (field k w fs) key v here = treatment-IsRedacted _ _ _ k w
    fields-Hides (field k w fs) key v (below x) = value-Hides (treatment_of k) k w key v x
    fields-Hides (field k w fs) key v (later_field x) = fields-Hides fs key v x
    fields-Hides end key v x = elim x [ ]

  -- In an event that is made, whatever stands under a sensitive key, at any depth, is a mark, the
  -- fingerprint of a token, or a string that is a fingerprint as it stands.
  pub make_audit_event-IsRedacted :
      (now : Text) (environment : Value) (include_session_id : Bool) (fs event : Fields)
      (key : Text) (v : Value)
      → make_audit_event fingerprint now environment include_session_id fs ≡ ok event
      → Stands key v (obj event)
      → is_sensitive key ≡ true
      → IsRedacted v
  unfolding make_audit_event
  make_audit_event-IsRedacted now environment include_session_id fs event key v h (in_object x)
        sensitive =
      let (from, is) = made_event-eq-ok _ h in fields-Hides from key v (rw is at x) sensitive
    where
      made_event-eq-ok :
          (name : Value)
          → made_event fingerprint now environment include_session_id fs name ≡ ok event
          → (from : Fields) × (event ≡ sanitize_event fingerprint from)
      made_event-eq-ok (str s) k =
          let (tests, made) = guards->>-eq-ok _ _ k in
          (drop_undefined (event_fields s now environment include_session_id fs), sym (ok_inj made))
      made_event-eq-ok undef k = cc
      made_event-eq-ok null k = cc
      made_event-eq-ok (bool b) k = cc
      made_event-eq-ok (num n) k = cc
      made_event-eq-ok (arr xs) k = cc
      made_event-eq-ok (obj gs) k = cc
