-- ===== src/Deployment/Accepted.antt =====
-- What `validateDeploymentConfig` of server/config/deployment_config.js accepts.
use slaif_connect.Base.{
  ◌≡◌, refl, ap, true, false, ◌&&◌, Option, none, some, List, [], ◌∷◌, Text, lit, arith, All, leb,
  length, text_eq_iff, ok, guards_iff, guards->>-eq-ok, >>=-eq-ok, ok_inj,
}
use slaif_connect.Base.Value.{Number, str, arr, is_text, is_falsy}
use slaif_connect.Deployment.Types.{Url, Config}
use slaif_connect.Deployment.Strings.{texts}
use slaif_connect.Deployment.Urls.{
  parsed, or_throw, normalize_url, normalize_origins, require_protocol, require_origins,
}
use slaif_connect.Deployment.Validate.{validate_redis, validate_for, validate_deployment_config}

module _ (parse_url : Text → Option Url) where
  -- The text is a URL with this protocol.
  abbrev pub IsUrlOf : Text → Text → Type 0
  IsUrlOf protocol s = (u : Url) × (parse_url s ≡ some u) × (u.protocol ≡ protocol)

  parsed-eq-ok : (code s : Text) (u : Url) → parsed parse_url code s ≡ ok u → parse_url s ≡ some u
  parsed-eq-ok code s u h = found-eq-ok (parse_url s) h
    where
      found-eq-ok : (found : Option Url) → or_throw code found ≡ ok u → found ≡ some u
      found-eq-ok none k = cc
      found-eq-ok (some v) k = let is = ok_inj k in ap some is

  require_protocol-production :
      (s allowed name : Text)
      → require_protocol parse_url s allowed name false ≡ ok tt
      → IsUrlOf allowed s
  unfolding require_protocol
  require_protocol-production s allowed name h =
      let (u, is, h0) = >>=-eq-ok (parsed parse_url (lit "ERR_INVALID_URL") s) _ h in
      let (tests, more) = (guards_iff _).0 h0 in
      (u, parsed-eq-ok _ s u is, (text_eq_iff u.protocol allowed).0 (ground (arith, tests)))

  require_origins-production :
      (ts : List Text)
      → require_origins parse_url ts false ≡ ok tt
      → All (IsUrlOf (lit "https:")) ts
  unfolding require_origins
  require_origins-production [] h = tt
  require_origins-production (t ∷ ts) h =
      let (u, first, rest) =
        >>=-eq-ok (require_protocol parse_url t (lit "https:") (lit "allowedWebOrigin") false)
          (λ u. require_origins parse_url ts false) h in
      (require_protocol-production t _ _ first, require_origins-production ts rest)

  -- A configuration that production may run with
  pub record IsProduction (c : Config) : Type 0 where
    pub api : (s : Text) × (c.api_base_url ≡ str s) × IsUrlOf (lit "https:") s
    pub relay : (s : Text) × (c.relay_public_url ≡ str s) × IsUrlOf (lit "wss:") s
    pub origins :
        (t : Text) × (ts : List Text) × (c.allowed_web_origins ≡ arr (texts (t ∷ ts)))
        × All (IsUrlOf (lit "https:")) (t ∷ ts)
    pub store :
        (is_text (lit "memory") c.token_store && is_falsy c.allow_single_instance_pilot) ≡ false
    pub audited : is_text (lit "disabled") c.audit_log_mode ≡ false
    pub audit_kept :
        (is_text (lit "memory") c.audit_log_mode && is_falsy c.allow_single_instance_pilot) ≡ false
    pub measured : is_text (lit "disabled") c.metrics_mode ≡ false
    pub limited : is_text (lit "disabled") c.rate_limit_mode ≡ false
    pub targets : is_falsy c.allowed_relay_targets_file ≡ false

  first_origin :
      (ts : List Text)
      → leb (length ts) 0 ≡ false
      → All (IsUrlOf (lit "https:")) ts
      → (t : Text) × (rest : List Text) × (arr (texts ts) ≡ arr (texts (t ∷ rest)))
        × All (IsUrlOf (lit "https:")) (t ∷ rest)
  first_origin [] h are = ground arith
  first_origin (t ∷ ts) h are = (t, ts, refl, are)

  module _ (print_number : Number → Text) where
    validate_for-IsProduction :
        (config c : Config)
        → validate_for print_number parse_url true config ≡ ok c
        → IsProduction c
    unfolding validate_for
    validate_for-IsProduction config c h =
        let (api, is_api, h1) = >>=-eq-ok (normalize_url parse_url _ _) _ h in
        let (relay, is_relay, h2) = >>=-eq-ok (normalize_url parse_url _ _) _ h1 in
        let (u, api_secure, h3) = >>=-eq-ok (require_protocol parse_url api _ _ _) _ h2 in
        let (u2, relay_secure, h4) = >>=-eq-ok (require_protocol parse_url relay _ _ _) _ h3 in
        let (origins, is_origins, h5) = >>=-eq-ok (normalize_origins parse_url _) _ h4 in
        let ((some_origin, more), h6) = guards->>-eq-ok _ _ h5 in
        let (u3, origins_secure, h7) = >>=-eq-ok (require_origins parse_url origins _) _ h6 in
        let ((stores, (store, more2)), h8) = guards->>-eq-ok _ _ h7 in
        let (redis, is_redis, h9) =
          >>=-eq-ok
            (validate_redis print_number parse_url config
              (is_text (lit "redis") config.token_store))
            _ h8 in
        let (modes, h10) = guards->>-eq-ok _ _ h9 in
        let (
          known_audit,
          (
            audited,
            (
              audit_kept,
              (path, (known_metrics, (measured, (m, (l, (r, (k, (limited, (targets, rest))))))))),
            ),
          ),
        ) =
          modes in
        rw (← ok_inj h10) (record {
          api = (api, refl, require_protocol-production api _ _ api_secure);
          relay = (relay, refl, require_protocol-production relay _ _ relay_secure);
          origins =
              first_origin origins some_origin (require_origins-production origins origins_secure);
          store = store;
          audited = audited;
          audit_kept = audit_kept;
          measured = measured;
          limited = limited;
          targets = targets;
        })

    -- What is accepted for production has secure protocols for the API, the relay and every web
    -- origin, of which there is one; no memory for tokens or the audit log but in a pilot; audit log,
    -- metrics and rate limits that are not disabled; and a file of the targets of the relay.
    pub validate_deployment_config-IsProduction :
        (config c : Config)
        → validate_deployment_config print_number parse_url config ≡ ok c
        → is_text (lit "production") config.env ≡ true
        → IsProduction c
    unfolding validate_deployment_config
    validate_deployment_config-IsProduction config c h production =
        let (known, rest) =
          guards->>-eq-ok _
            (validate_for print_number parse_url (is_text (lit "production") config.env) config)
            h in
        validate_for-IsProduction config c (rw production at rest)
