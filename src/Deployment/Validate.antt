-- ===== src/Deployment/Validate.antt =====
-- `validateDeploymentConfig` of server/config/deployment_config.js. An error is its code.
use slaif_connect.Base.{
  Bool, true, false, not, ◌&&◌, Option, List, [], ◌∷◌, Text, lit, leb, length, Result, ok, ◌>>=◌,
  ◌>>◌, guards,
}
use slaif_connect.Base.Value.{
  Value, Number, str, arr, is_text, is_one_of, is_falsy, is_integer_in, text_matches,
}
use slaif_connect.Deployment.Types.{
  Url, Config, environments, token_stores, audit_modes, metrics_modes, rate_limit_modes,
}
use slaif_connect.Deployment.Strings.{texts, is_path, list_from, validate_redis_key_prefix}
use slaif_connect.Deployment.Urls.{
  normalize_url, normalize_origins, normalize_redis_url, require_protocol, require_origins,
}

-- The tests behind those of the token store
abbrev pub mode_tests : Config → Bool → List (Bool × Text)
mode_tests c production =
    (not (is_one_of audit_modes c.audit_log_mode), lit "invalid_audit_log_mode")
    ∷ (production && is_text (lit "disabled") c.audit_log_mode, lit "audit_log_disabled")
    ∷ (
      production
          && is_text (lit "memory") c.audit_log_mode
          && is_falsy c.allow_single_instance_pilot,
      lit "memory_audit_sink_not_allowed",
    )
    ∷ (
      is_text (lit "file") c.audit_log_mode && is_falsy c.audit_log_path,
      lit "missing_audit_log_path",
    )
    ∷ (not (is_one_of metrics_modes c.metrics_mode), lit "invalid_metrics_mode")
    ∷ (production && is_text (lit "disabled") c.metrics_mode, lit "metrics_disabled")
    ∷ (not (text_matches is_path c.metrics_path), lit "invalid_metricsPath")
    ∷ (not (text_matches is_path c.health_path), lit "invalid_healthPath")
    ∷ (not (text_matches is_path c.ready_path), lit "invalid_readyPath")
    ∷ (not (is_one_of rate_limit_modes c.rate_limit_mode), lit "invalid_rate_limit_mode")
    ∷ (production && is_text (lit "disabled") c.rate_limit_mode, lit "rate_limit_disabled")
    ∷ (
      production && is_falsy c.allowed_relay_targets_file,
      lit "missing_allowed_relay_targets_file",
    )
    ∷ (not (is_integer_in 128 65536 c.relay_max_auth_bytes), lit "unsafe_relayMaxAuthBytes")
    ∷ (not (is_integer_in 100 60000 c.relay_unauth_timeout_ms), lit "unsafe_relayUnauthTimeoutMs")
    ∷ (not (is_integer_in 1000 1800000 c.relay_idle_timeout_ms), lit "unsafe_relayIdleTimeoutMs")
    ∷ (
      not (is_integer_in 1000 28800000 c.relay_absolute_timeout_ms),
      lit "unsafe_relayAbsoluteTimeoutMs",
    )
    ∷ (not (is_integer_in 128 65536 c.job_report_max_bytes), lit "unsafe_jobReportMaxBytes")
    ∷ []

-- What is normalized of a configuration
abbrev pub normalized : Config → Text → Text → List Text → Value × Value → Config
normalized c api relay origins redis = record c {
  api_base_url = str api;
  relay_public_url = str relay;
  allowed_web_origins = arr (texts origins);
  token_store_url = redis.0;
  redis_key_prefix = redis.1;
}

module _ (print_number : Number → Text) (parse_url : Text → Option Url) where
  -- The URL and the prefix of a Redis store
  unfoldable pub redis_settings : Config → Result Text (Value × Value)
  redis_settings c = do
    url ← normalize_redis_url parse_url c.token_store_url
    prefix ← validate_redis_key_prefix print_number c.redis_key_prefix
    guards (
        (
          not (is_integer_in 100 60000 c.redis_connect_timeout_ms),
          lit "unsafe_redisConnectTimeoutMs",
        )
        ∷ (
          not (is_integer_in 100 60000 c.redis_command_timeout_ms),
          lit "unsafe_redisCommandTimeoutMs",
        )
        ∷ [])
    ok (str url, str prefix)

  -- Those of another store are left alone.
  abbrev pub validate_redis : Config → Bool → Result Text (Value × Value)
  validate_redis c true = redis_settings c
  validate_redis c false = ok (c.token_store_url, c.redis_key_prefix)

  -- The validator behind its first test, in production or not
  unfoldable pub validate_for : Bool → Config → Result Text Config
  validate_for production c = do
    api ← normalize_url parse_url (lit "apiBaseUrl") c.api_base_url
    relay ← normalize_url parse_url (lit "relayPublicUrl") c.relay_public_url
    require_protocol parse_url api (lit "https:") (lit "apiBaseUrl") (not production)
    require_protocol parse_url relay (lit "wss:") (lit "relayPublicUrl") (not production)
    origins ← normalize_origins parse_url (list_from print_number c.allowed_web_origins)
    guards ((leb (length origins) 0, lit "missing_allowed_web_origins") ∷ [])
    require_origins parse_url origins (not production)
    guards (
        (not (is_one_of token_stores c.token_store), lit "invalid_token_store")
        ∷ (
          production
              && is_text (lit "memory") c.token_store
              && is_falsy c.allow_single_instance_pilot,
          lit "memory_token_store_not_allowed",
        )
        ∷ (
          is_one_of (lit "redis" ∷ lit "postgres" ∷ []) c.token_store && is_falsy c.token_store_url,
          lit "missing_token_store_url",
        )
        ∷ [])
    redis ← validate_redis c (is_text (lit "redis") c.token_store)
    guards (mode_tests c production)
    ok (normalized c api relay origins redis)

  unfoldable pub validate_deployment_config : Config → Result Text Config
  validate_deployment_config c =
      guards ((not (is_one_of environments c.env), lit "invalid_env") ∷ [])
      >> validate_for (is_text (lit "production") c.env) c
