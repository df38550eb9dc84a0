-- ===== src/Intent/Again.antt =====
-- What `validateSessionIntent` of server/workloads/session_intent.js returns.
use slaif_connect.Base.{
  ◌≡◌, refl, false, not, [], ◌∷◌, Option, some, none, Text, lit, text_eq, is_word, class_match,
  to_lower, to_lower_idem, class_match-to_lower, ok, guards, guards->>-eq-ok, >>=-eq-ok, ok_inj,
  includes,
}
use slaif_connect.Base.Value.{
  Value, Fields, ℤ, leb_ℤ, undef, null, bool, num, str, arr, obj, get_field,
}
use slaif_connect.Forbidden.{walk}
use slaif_connect.Catalog
use slaif_connect.Catalog.Payloads.{same_id}
use slaif_connect.Intent.{
  SessionIntent, Stamp, stamp, validate_session_id, validate_hpc_alias, parse_timestamp,
  assert_plain_object, assert_no_forbidden_session_intent_fields, validate_session_intent, as_value,
}

validate_session_id-eq-ok :
    (v : Value) (id : Text) → validate_session_id v ≡ ok id → validate_session_id (str id) ≡ ok id
unfolding validate_session_id
validate_session_id-eq-ok (str s) id h =
    let (tests, last) = guards->>-eq-ok _ (ok s) h in
    let same : s ≡ id = ok_inj last in rw (← same) (rw (← same) at h)
validate_session_id-eq-ok undef id h = cc
validate_session_id-eq-ok null id h = cc
validate_session_id-eq-ok (bool b) id h = cc
validate_session_id-eq-ok (num n) id h = cc
validate_session_id-eq-ok (arr xs) id h = cc
validate_session_id-eq-ok (obj fs) id h = cc

validate_hpc_alias-eq-ok :
    (v : Value) (hpc : Text) → validate_hpc_alias v ≡ ok hpc → validate_hpc_alias (str hpc) ≡ ok hpc
unfolding validate_hpc_alias
validate_hpc_alias-eq-ok (str s) hpc h =
    let (tests, last) =
      guards->>-eq-ok ((not (class_match is_word 1 64 s), lit "invalid_hpc") ∷ []) (ok (to_lower s))
        h in
    let same : to_lower s ≡ hpc = ok_inj last in
    let again = rw (← same) at h in
    rw (← same) (rw (class_match-to_lower 1 64 s, to_lower_idem s) again)
validate_hpc_alias-eq-ok undef id h = cc
validate_hpc_alias-eq-ok null id h = cc
validate_hpc_alias-eq-ok (bool b) id h = cc
validate_hpc_alias-eq-ok (num n) id h = cc
validate_hpc_alias-eq-ok (arr xs) id h = cc
validate_hpc_alias-eq-ok (obj fs) id h = cc

module _ (parse_date : Text → Option ℤ) where
  parse_timestamp-eq-ok :
      (name : Text) (v : Value) (t : Stamp)
      → parse_timestamp parse_date name v ≡ ok t
      → parse_timestamp parse_date name (str t.written) ≡ ok t
  unfolding parse_timestamp
  parse_timestamp-eq-ok name (str s) t h = stamped (parse_date s) refl h
    where
      stamped :
          (d : Option ℤ)
          → parse_date s ≡ d
          → stamp name s d ≡ ok t
          → stamp name t.written (parse_date t.written) ≡ ok t
      stamped none e k = cc
      stamped (some at) e k = let same = ok_inj k in rw (← same) (rw e refl)
  parse_timestamp-eq-ok name undef t h = cc
  parse_timestamp-eq-ok name null t h = cc
  parse_timestamp-eq-ok name (bool b) t h = cc
  parse_timestamp-eq-ok name (num n) t h = cc
  parse_timestamp-eq-ok name (arr xs) t h = cc
  parse_timestamp-eq-ok name (obj fs) t h = cc

  object-eq-ok : (v : Value) (fs : Fields) → assert_plain_object v ≡ ok fs → v ≡ obj fs
  unfolding assert_plain_object
  object-eq-ok (obj gs) fs h = let same : gs ≡ fs = ok_inj h in rw same refl
  object-eq-ok undef fs h = cc
  object-eq-ok null fs h = cc
  object-eq-ok (bool b) fs h = cc
  object-eq-ok (num n) fs h = cc
  object-eq-ok (str s) fs h = cc
  object-eq-ok (arr xs) fs h = cc

  -- What the validator has found out about an intent that it returns
  pub record IsIntent (now : ℤ) (i : SessionIntent) : Type 0 where
    pub session : validate_session_id (str i.session_id) ≡ ok i.session_id
    pub host : validate_hpc_alias (str i.hpc) ≡ ok i.hpc
    pub payload : Catalog.validate_payload_id (str i.payload_id) ≡ ok i.payload_id
    pub created : Stamp
    pub expires : Stamp
    pub is_created : parse_timestamp parse_date (lit "createdAt") (str i.created_at) ≡ ok created
    pub is_expires : parse_timestamp parse_date (lit "expiresAt") (str i.expires_at) ≡ ok expires
    pub created_written : created.written ≡ i.created_at
    pub expires_written : expires.written ≡ i.expires_at
    pub lasts : leb_ℤ expires.at created.at ≡ false
    pub live : leb_ℤ expires.at now ≡ false

  pub validate_session_intent-IsIntent :
      (now : ℤ) (intent : Value) (i : SessionIntent)
      → validate_session_intent parse_date now intent ≡ ok i
      → IsIntent now i
  unfolding validate_session_intent
  validate_session_intent-IsIntent now intent i h =
      let (fs, is, h0) = >>=-eq-ok (assert_plain_object intent) _ h in
      let (u, clean, h1) = >>=-eq-ok (assert_no_forbidden_session_intent_fields (obj fs)) _ h0 in
      let (typed, h2) = guards->>-eq-ok _ _ h1 in
      let (session, is_session, h3) = >>=-eq-ok (validate_session_id _) _ h2 in
      let (hpc, is_hpc, h4) = >>=-eq-ok (validate_hpc_alias _) _ h3 in
      let (payload, is_payload, h5) = >>=-eq-ok (Catalog.validate_payload_id _) _ h4 in
      let (created, is_created, h6) = >>=-eq-ok (parse_timestamp parse_date _ _) _ h5 in
      let (expires, is_expires, h7) = >>=-eq-ok (parse_timestamp parse_date _ _) _ h6 in
      let ((lasts, (live, more)), h8) = guards->>-eq-ok _ _ h7 in
      rw (← ok_inj h8) (record {
        session = validate_session_id-eq-ok _ session is_session;
        host = validate_hpc_alias-eq-ok _ hpc is_hpc;
        payload = same_id _ payload is_payload;
        created = created;
        expires = expires;
        is_created = parse_timestamp-eq-ok _ _ created is_created;
        is_expires = parse_timestamp-eq-ok _ _ expires is_expires;
        created_written = refl;
        expires_written = refl;
        lasts = lasts;
        live = live;
      })

  IsIntent-validate_session_intent :
      (now : ℤ) (i : SessionIntent)
      → IsIntent now i
      → validate_session_intent parse_date now (as_value i) ≡ ok i
  unfolding validate_session_intent assert_plain_object assert_no_forbidden_session_intent_fields
      walk get_field includes text_eq guards
  IsIntent-validate_session_intent now i is =
      rw
        (
          is.session, is.host, is.payload, is.is_created, is.is_expires, is.lasts, is.live,
          is.created_written, is.expires_written,
        )
        refl

  -- An intent that was accepted is accepted again, and comes back as it was.
  pub validate_session_intent_idem :
      (now : ℤ) (intent : Value) (i : SessionIntent)
      → validate_session_intent parse_date now intent ≡ ok i
      → validate_session_intent parse_date now (as_value i) ≡ ok i
  validate_session_intent_idem now intent i h =
      IsIntent-validate_session_intent now i (validate_session_intent-IsIntent now intent i h)
