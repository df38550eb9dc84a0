-- ===== src/Deployment/Shown.antt =====
-- `getSafeDeploymentSummary` of server/config/deployment_config.js.
use slaif_connect.Base.{Bool, true, false, Option, Text, lit, text_eq, Result, ok, ◌>>=◌}
use slaif_connect.Base.Value.{Value, Number, undef, bool, is_text, text_of}
use slaif_connect.Deployment.Types.{Url, Config, Summary}
use slaif_connect.Deployment.Strings.{is_truthy}
use slaif_connect.Deployment.Urls.{parsed}
use slaif_connect.Deployment.Validate.{validate_deployment_config}

abbrev if_redis : Value → Bool → Value
if_redis v true = v
if_redis v false = undef

abbrev pub shown : Config → Text → Text → Value → Summary
shown c api relay tls = record {
  env = c.env;
  api_origin = api;
  relay_origin = relay;
  allowed_web_origins = c.allowed_web_origins;
  token_store = c.token_store;
  redis_key_prefix = if_redis c.redis_key_prefix (is_text (lit "redis") c.token_store);
  redis_tls_enabled = tls;
  has_token_store_url = is_truthy c.token_store_url;
  audit_log_mode = c.audit_log_mode;
  audit_include_session_id = c.audit_include_session_id;
  metrics_mode = c.metrics_mode;
  metrics_path = c.metrics_path;
  health_path = c.health_path;
  ready_path = c.ready_path;
  metrics_include_hpc_label = c.metrics_include_hpc_label;
  observability_env_label = c.observability_env_label;
  rate_limit_mode = c.rate_limit_mode;
  relay_max_auth_bytes = c.relay_max_auth_bytes;
  relay_unauth_timeout_ms = c.relay_unauth_timeout_ms;
  relay_idle_timeout_ms = c.relay_idle_timeout_ms;
  relay_absolute_timeout_ms = c.relay_absolute_timeout_ms;
  job_report_max_bytes = c.job_report_max_bytes;
  has_allowed_relay_targets_file = is_truthy c.allowed_relay_targets_file;
  has_policy_trust_roots_file = is_truthy c.policy_trust_roots_file;
  has_signed_policy_file = is_truthy c.signed_policy_file;
}

module _ (parse_url : Text → Option Url) where
  -- `new URL(value)`, which throws on no URL
  abbrev pub url_of : Value → Result Text Url
  url_of v = parsed parse_url (lit "ERR_INVALID_URL") (text_of v)

  -- `Boolean(redisTlsEnabled || new URL(tokenStoreUrl).protocol === 'rediss:')`, for a Redis store
  abbrev pub tls_of : Config → Bool → Bool → Result Text Value
  tls_of c false asked = ok undef
  tls_of c true true = ok (bool true)
  tls_of c true false =
      url_of c.token_store_url >>= λ u. ok (bool (text_eq u.protocol (lit "rediss:")))

  unfoldable pub summarize : Config → Result Text Summary
  summarize c = do
    api ← url_of c.api_base_url
    relay ← url_of c.relay_public_url
    tls ← tls_of c (is_text (lit "redis") c.token_store) (is_truthy c.redis_tls_enabled)
    ok (shown c api.origin relay.origin tls)

module _ (print_number : Number → Text) (parse_url : Text → Option Url) where
  -- What `getSafeDeploymentSummary` returns
  unfoldable pub get_safe_deployment_summary : Config → Result Text Summary
  get_safe_deployment_summary config =
      validate_deployment_config print_number parse_url config >>= summarize parse_url
