-- ===== src/Deployment/Made.antt =====
-- What `validateDeploymentConfig` of server/config/deployment_config.js makes a configuration of.
use slaif_connect.Base.{◌≡◌, Bool, Option, List, Text, lit, ok, guards->>-eq-ok, >>=-eq-ok, ok_inj}
use slaif_connect.Base.Value.{Value, Number, is_text}
use slaif_connect.Deployment.Types.{Url, Config}
use slaif_connect.Deployment.Strings.{list_from}
use slaif_connect.Deployment.Urls.{
  normalize_url, normalize_origins, require_protocol, require_origins,
}
use slaif_connect.Deployment.Validate.{
  validate_redis, normalized, validate_for, validate_deployment_config,
}

-- The configuration with another URL of the token store
abbrev pub with_url : Config → Value → Config
with_url c url = record c { token_store_url = url }

module _ (print_number : Number → Text) (parse_url : Text → Option Url) where
  -- What a configuration that is returned was made of
  pub record IsMade (config c : Config) : Type 0 where
    pub api : Text
    pub relay : Text
    pub origins : List Text
    pub redis : Value × Value
    pub is_api : normalize_url parse_url (lit "apiBaseUrl") config.api_base_url ≡ ok api
    pub is_relay : normalize_url parse_url (lit "relayPublicUrl") config.relay_public_url ≡ ok relay
    pub is_origins :
        normalize_origins parse_url (list_from print_number config.allowed_web_origins) ≡ ok origins
    pub is_redis :
        validate_redis print_number parse_url config (is_text (lit "redis") config.token_store)
        ≡ ok redis
    pub made : normalized config api relay origins redis ≡ c

  validate_for-IsMade :
      (production : Bool) (config c : Config)
      → validate_for print_number parse_url production config ≡ ok c
      → IsMade config c
  unfolding validate_for
  validate_for-IsMade production config c h =
      let (api, is_api, h1) = >>=-eq-ok (normalize_url parse_url _ _) _ h in
      let (relay, is_relay, h2) = >>=-eq-ok (normalize_url parse_url _ _) _ h1 in
      let (u, api_secure, h3) = >>=-eq-ok (require_protocol parse_url api _ _ _) _ h2 in
      let (u2, relay_secure, h4) = >>=-eq-ok (require_protocol parse_url relay _ _ _) _ h3 in
      let (origins, is_origins, h5) = >>=-eq-ok (normalize_origins parse_url _) _ h4 in
      let (some_origin, h6) = guards->>-eq-ok _ _ h5 in
      let (u3, origins_secure, h7) = >>=-eq-ok (require_origins parse_url origins _) _ h6 in
      let (stores, h8) = guards->>-eq-ok _ _ h7 in
      let (redis, is_redis, h9) =
        >>=-eq-ok
          (validate_redis print_number parse_url config (is_text (lit "redis") config.token_store))
          _ h8 in
      let (modes, h10) = guards->>-eq-ok _ _ h9 in
      record {
        api = api;
        relay = relay;
        origins = origins;
        redis = redis;
        is_api = is_api;
        is_relay = is_relay;
        is_origins = is_origins;
        is_redis = is_redis;
        made = ok_inj h10;
      }

  pub validate_deployment_config-IsMade :
      (config c : Config)
      → validate_deployment_config print_number parse_url config ≡ ok c
      → IsMade config c
  unfolding validate_deployment_config
  validate_deployment_config-IsMade config c h =
      let (known, rest) =
        guards->>-eq-ok _
          (validate_for print_number parse_url (is_text (lit "production") config.env) config) h in
      validate_for-IsMade _ config c rest
