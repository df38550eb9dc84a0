-- ===== src/Deployment/Tests.antt =====
-- The theorems on server/config/deployment_config.js at one configuration.
use slaif_connect.Base.{
  trim_start, trim_end, ℕ, ◌≡◌, refl, true, false, Option, some, [], Text, lit, text_eq, includes,
  is_word, class_match, ok, err, guards, starts_with, if◌then◌else◌,
}
use slaif_connect.Base.Value.{
  Value, Number, undef, num, str, bool, arr, int, pos, cons, nil, is_text,
}
use slaif_connect.Deployment.Types.{Url, Config, Summary}
use slaif_connect.Deployment.Strings.{
  drop_slash, drop_colons, is_path, text_from, list_from_items, list_from,
  validate_redis_key_prefix,
}
use slaif_connect.Deployment.Urls.{
  normalize_url, normalize_origin, normalize_origins, normalize_redis_url, require_protocol,
  require_origins,
}
use slaif_connect.Deployment.Validate.{redis_settings, validate_for, validate_deployment_config}
use slaif_connect.Deployment.Shown.{shown}
use slaif_connect.Deployment.Accepted.{IsProduction, validate_deployment_config-IsProduction}
use slaif_connect.Deployment.Made.{with_url}

-- A reader of URLs that tells their protocols apart, and that takes every URL for an origin
unfoldable read_url : Text → Option Url
read_url s = some (record {
  href = s;
  protocol = protocol_of s;
  hostname = lit "slaif.example";
  origin = s;
  pathname = lit "/";
  search = [];
  hash = [];
  username = [];
  password = [];
})
  where
    protocol_of : Text → Text
    protocol_of s =
        if starts_with s (lit "https")
        then lit "https:"
        else if starts_with s (lit "wss")
        then lit "wss:"
        else if starts_with s (lit "rediss")
        then lit "rediss:"
        else lit "redis:"

abbrev no_number : Number → Text
no_number n = []

abbrev nat : ℕ → Value
nat n = num (int (pos n))

abbrev config : Config
config = record {
  env = str (lit "production");
  api_base_url = str (lit "https://api/");
  relay_public_url = str (lit "wss://relay");
  allowed_web_origins = arr (cons (str (lit " https://web ")) nil);
  allowed_relay_targets_file = str (lit "/etc/targets");
  token_store = str (lit "redis");
  token_store_url = str (lit "rediss://u:secret@db");
  redis_key_prefix = str (lit "slaif::");
  redis_connect_timeout_ms = nat 10000;
  redis_command_timeout_ms = nat 10000;
  redis_tls_enabled = bool false;
  audit_log_mode = str (lit "stdout");
  audit_log_path = undef;
  audit_include_session_id = bool true;
  metrics_mode = str (lit "prometheus");
  metrics_path = str (lit "/metrics");
  health_path = str (lit "/healthz");
  ready_path = str (lit "/readyz");
  metrics_include_hpc_label = bool false;
  observability_env_label = str (lit "production");
  relay_max_auth_bytes = nat 4096;
  relay_unauth_timeout_ms = nat 10000;
  relay_idle_timeout_ms = nat 300000;
  relay_absolute_timeout_ms = nat 3600000;
  job_report_max_bytes = nat 16384;
  rate_limit_mode = str (lit "memory");
  policy_trust_roots_file = undef;
  signed_policy_file = undef;
  allow_single_instance_pilot = bool false;
}

abbrev accepted : Config
accepted = record config {
  api_base_url = str (lit "https://api");
  allowed_web_origins = arr (cons (str (lit "https://web")) nil);
  redis_key_prefix = str (lit "slaif");
}

is_accepted : validate_deployment_config no_number read_url config ≡ ok accepted
unfolding validate_deployment_config validate_for guards normalize_url normalize_origins
    normalize_origin require_protocol require_origins redis_settings normalize_redis_url
    validate_redis_key_prefix list_from list_from_items text_from trim_start trim_end drop_slash
    drop_colons is_path read_url starts_with includes text_eq class_match is_word
is_accepted = refl

is_live : is_text (lit "production") config.env ≡ true
unfolding text_eq
is_live = refl

validate_deployment_config-IsProduction_example : IsProduction read_url accepted
validate_deployment_config-IsProduction_example =
    validate_deployment_config-IsProduction read_url no_number config accepted is_accepted is_live

abbrev summary : Value → Summary
summary tls = record (shown accepted (lit "https://api") (lit "wss://relay") tls) {
  has_token_store_url = true;
}

abbrev plain : Config
plain = with_url config (str (lit "redis://db"))

-- A prefix of colons is accepted, and nothing is left of it, which is not accepted again.
prefix_lost : validate_redis_key_prefix no_number (str (lit "::")) ≡ ok []
unfolding validate_redis_key_prefix text_from trim_start trim_end drop_colons guards class_match
    is_word
prefix_lost = refl

prefix_refused : validate_redis_key_prefix no_number (str []) ≡ err (lit "invalid_redis_key_prefix")
unfolding validate_redis_key_prefix trim_start trim_end guards class_match
prefix_refused = refl
