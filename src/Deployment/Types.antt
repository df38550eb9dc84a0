-- ===== src/Deployment/Types.antt =====
-- The data of server/config/deployment_config.js, and its lists.
use slaif_connect.Base.{Bool, List, [], ◌∷◌, Text, lit}
use slaif_connect.Base.Value.{Value}

-- The parts of a URL that are read
pub record Url : Type 0 where
  pub href : Text
  pub protocol : Text
  pub hostname : Text
  pub origin : Text
  pub pathname : Text
  pub search : Text
  pub hash : Text
  pub username : Text
  pub password : Text

abbrev pub environments : List Text
environments = lit "development" ∷ lit "test" ∷ lit "local-pilot" ∷ lit "production" ∷ []

abbrev pub token_stores : List Text
token_stores = lit "memory" ∷ lit "redis" ∷ lit "postgres" ∷ []

abbrev pub audit_modes : List Text
audit_modes = lit "stdout" ∷ lit "file" ∷ lit "memory" ∷ lit "external" ∷ lit "disabled" ∷ []

abbrev pub metrics_modes : List Text
metrics_modes = lit "prometheus" ∷ lit "external" ∷ lit "disabled" ∷ []

abbrev pub rate_limit_modes : List Text
rate_limit_modes = lit "disabled" ∷ lit "memory" ∷ lit "external" ∷ []

abbrev pub local_hosts : List Text
local_hosts = lit "localhost" ∷ lit "127.0.0.1" ∷ lit "[::1]" ∷ lit "::1" ∷ []

abbrev pub redis_protocols : List Text
redis_protocols = lit "redis:" ∷ lit "rediss:" ∷ []

-- The properties of a configuration that are read
pub record Config : Type 0 where
  pub env : Value
  pub api_base_url : Value
  pub relay_public_url : Value
  pub allowed_web_origins : Value
  pub allowed_relay_targets_file : Value
  pub token_store : Value
  pub token_store_url : Value
  pub redis_key_prefix : Value
  pub redis_connect_timeout_ms : Value
  pub redis_command_timeout_ms : Value
  pub redis_tls_enabled : Value
  pub audit_log_mode : Value
  pub audit_log_path : Value
  pub audit_include_session_id : Value
  pub metrics_mode : Value
  pub metrics_path : Value
  pub health_path : Value
  pub ready_path : Value
  pub metrics_include_hpc_label : Value
  pub observability_env_label : Value
  pub relay_max_auth_bytes : Value
  pub relay_unauth_timeout_ms : Value
  pub relay_idle_timeout_ms : Value
  pub relay_absolute_timeout_ms : Value
  pub job_report_max_bytes : Value
  pub rate_limit_mode : Value
  pub policy_trust_roots_file : Value
  pub signed_policy_file : Value
  pub allow_single_instance_pilot : Value

-- What operators are shown of a configuration
pub record Summary : Type 0 where
  pub env : Value
  pub api_origin : Text
  pub relay_origin : Text
  pub allowed_web_origins : Value
  pub token_store : Value
  pub redis_key_prefix : Value
  pub redis_tls_enabled : Value
  pub has_token_store_url : Bool
  pub audit_log_mode : Value
  pub audit_include_session_id : Value
  pub metrics_mode : Value
  pub metrics_path : Value
  pub health_path : Value
  pub ready_path : Value
  pub metrics_include_hpc_label : Value
  pub observability_env_label : Value
  pub rate_limit_mode : Value
  pub relay_max_auth_bytes : Value
  pub relay_unauth_timeout_ms : Value
  pub relay_idle_timeout_ms : Value
  pub relay_absolute_timeout_ms : Value
  pub job_report_max_bytes : Value
  pub has_allowed_relay_targets_file : Bool
  pub has_policy_trust_roots_file : Bool
  pub has_signed_policy_file : Bool
