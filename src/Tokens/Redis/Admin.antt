-- ===== src/Tokens/Redis/Admin.antt =====
-- `issueToken`, `revokeToken` and `cleanupExpired` of server/tokens/redis_token_store.js.
use slaif_connect.Base.{
  ℕ, ◌+◌, Bool, true, false, Option, none, some, List, [], ◌∷◌, ◌++◌, Text, lit, text_eq,
  starts_with, leb, if◌then◌else◌, Result, ok, err, ◌>>=◌,
}
use slaif_connect.Base.Value.{integer_in, positive_integer}
use slaif_connect.Tokens.Types.{
  TokenError, unknown_token, duplicate_token, invalid, missing_or_malformed_token, TokenRecord,
  Request, Notice, audit, metric, assert_scope, assert_binding_value, or_one, token_value,
  safe_fingerprint, assert_token_value,
}
use slaif_connect.Tokens.Registry.{Issued, or_throw, record_fields, issued}
use slaif_connect.Tokens.Redis.Server.{Redis}
use slaif_connect.Tokens.Redis.{
  Store, parse_record, stringify, key_for_hash, record_ttl, get_record_by_token, redis_labels,
}

module _ (redis : Redis) (sha256 : Text → Text) (prefix : Text) (grace : ℕ) where
  open redis use {State, get, set_new, set, del, scan}

  abbrev TheStore : Type 0
  TheStore = Store redis sha256 prefix grace

  abbrev log : TheStore → List Notice → TheStore
  log s ns = record s { notices = s.notices ++ ns }

  -- The token, its record and its time to live, with all that `issueToken` throws before SET.
  unfoldable pub prepare : ℕ → Request → Text → Result TokenError (Text × TokenRecord × ℕ)
  prepare at req fresh = do
    scope ← assert_scope req.scope
    ttl ← or_throw (positive_integer req.ttl_ms) (invalid (lit "ttl"))
    uses ← or_throw (integer_in 1 1000 (or_one req.max_uses)) (invalid (lit "max_uses"))
    value ← assert_token_value (some (token_value req.token fresh))
    session_id ← assert_binding_value req.session_id (lit "sessionId")
    hpc ← assert_binding_value req.hpc (lit "hpc")
    origin ← assert_binding_value req.origin (lit "origin")
    ok (
      value,
      record {
        scope = scope;
        session_id = session_id;
        hpc = hpc;
        origin = origin;
        created_at = at;
        expires_at = at + ttl;
        max_uses = uses;
        used = 0;
        revoked = false;
        metadata = req.metadata;
        fingerprint = safe_fingerprint sha256 (some value);
      },
      ttl + grace,
    )

  abbrev settle_set :
      TheStore → Text → TokenRecord → Bool × State → Result TokenError Issued × TheStore
  settle_set s value r (true, st) = (
    issued value r,
    log (record s { server = st })
        (audit (lit "token.issued") (record_fields r (lit "issued"))
          ∷ metric (lit "slaif_tokens_issued_total") (redis_labels r.scope (lit "issued") none)
          ∷ []),
  )
  settle_set s value r (false, st) = (err duplicate_token, record s { server = st })

  unfoldable pub issue_token : ℕ → TheStore → Request → Text → Result TokenError Issued × TheStore
  issue_token at s req fresh = elim (prepare at req fresh) [
    | ok (value, r, px) ↦
        settle_set s value r
          (set_new at s.server (key_for_hash prefix (sha256 value)) (stringify r) px)
    | err e ↦ (err e, s)
  ]

  -- The loop of `findKeyByFingerprint` over the keys of the scan.
  unfoldable pub find_among :
      ℕ → State → Text → List Text → Result TokenError (Option (Text × TokenRecord))
  find_among at st fp [] = ok none
  find_among at st fp (key ∷ keys) =
      let rest = find_among at st fp keys in
      elim (parse_record (get at st key)) [
        | ok (some r) ↦ if text_eq r.fingerprint fp then ok (some (key, r)) else rest
        | ok none ↦ rest
        | err e ↦ err e
      ]

  abbrev found_entry :
      Result TokenError (Text × TokenRecord) → Result TokenError (Option (Text × TokenRecord))
  found_entry (ok entry) = ok (some entry)
  found_entry (err unknown_token) = ok none
  found_entry (err missing_or_malformed_token) = ok none
  found_entry (err e) = err e

  abbrev settle_revoke :
      ℕ
      → TheStore
      → Result TokenError (Option (Text × TokenRecord))
      → Result TokenError Bool × TheStore
  settle_revoke at s (ok none) = (ok false, s)
  settle_revoke at s (ok (some (key, r))) = (
    ok true,
    log
        (record s {
          server =
              set at s.server key (stringify (record r { revoked = true }))
                (record_ttl r.expires_at at grace);
        })
        (audit (lit "token.revoked") (record_fields r (lit "revoked")) ∷ []),
  )
  settle_revoke at s (err e) = (err e, s)

  unfoldable pub revoke_token : ℕ → TheStore → Option Text → Result TokenError Bool × TheStore
  unfolding find_among
  revoke_token at s none = (ok false, s)
  revoke_token at s (some []) = (ok false, s)
  revoke_token at s (some (c ∷ t)) = settle_revoke at s (
      if starts_with (c ∷ t) (lit "sha256:")
      then find_among at s.server (c ∷ t) (scan at s.server)
      else found_entry (get_record_by_token redis sha256 prefix grace at s.server (some (c ∷ t))))

  abbrev expired : ℕ → Option TokenRecord → Bool
  expired at none = false
  expired at (some r) = leb r.expires_at at

  -- The loop of `cleanupExpired`; a value that is no JSON ends it, with what it has deleted.
  unfoldable pub sweep : ℕ → State → ℕ → List Text → Result TokenError ℕ × State
  sweep at st removed [] = (ok removed, st)
  sweep at st removed (key ∷ keys) = elim (parse_record (get at st key)) [
    | ok r ↦ elim (expired at r) [
      | true ↦ sweep at (del st key) (removed + 1) keys
      | false ↦ sweep at st removed keys
    ]
    | err e ↦ (err e, st)
  ]

  unfoldable pub cleanup_expired : ℕ → TheStore → Result TokenError ℕ × TheStore
  unfolding sweep
  cleanup_expired at s =
      let (removed, st) = sweep at s.server 0 (scan at s.server) in
      (removed, record s { server = st })
