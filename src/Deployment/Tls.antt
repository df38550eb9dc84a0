-- ===== src/Deployment/Tls.antt =====
-- What `getSafeDeploymentSummary` of server/config/deployment_config.js tells of TLS.
use slaif_connect.Base.{
  ◌≡◌, refl, sym, ap, ◌∙◌, Bool, true, false, Option, some, none, Text, lit, text_eq, arith, ok,
  guards->>-eq-ok, >>=-eq-ok, ok_inj,
}
use slaif_connect.Base.Value.{
  Value, Number, undef, null, bool, num, str, arr, obj, is_text, is_falsy, text_of,
}
use slaif_connect.Deployment.Types.{Url, Config, Summary}
use slaif_connect.Deployment.Strings.{validate_redis_key_prefix, is_truthy}
use slaif_connect.Deployment.Urls.{or_throw, parsed, normalize_redis_url}
use slaif_connect.Deployment.Validate.{redis_settings, validate_redis}
use slaif_connect.Deployment.Shown.{url_of, tls_of, summarize}
use slaif_connect.Deployment.Made.{with_url, IsMade}

or_throw-some : (code : Text) (r : Option Url) (u : Url) → or_throw code r ≡ ok u → r ≡ some u
or_throw-some code none u h = cc
or_throw-some code (some v) u h = cc

module _ (parse_url : Text → Option Url) where
  -- What is shown of TLS: nothing for a store that is not Redis, or that it is asked for, or whether
  -- the URL of the store, normalized, has the protocol `rediss:`.
  pub data IsTlsFact (config : Config) (url : Value) : Value → Type 0 where
    no_redis : is_text (lit "redis") config.token_store ≡ false → IsTlsFact config url undef
    asked_for : is_falsy config.redis_tls_enabled ≡ false → IsTlsFact config url (bool true)
    by_protocol :
        (first second : Url)
        → parse_url (text_of url) ≡ some first
        → parse_url first.href ≡ some second
        → IsTlsFact config url (bool (text_eq second.protocol (lit "rediss:")))

  normalize_redis_url-href :
      (url : Value) (href : Text)
      → normalize_redis_url parse_url url ≡ ok href
      → (first : Url) × (parse_url (text_of url) ≡ some first) × (first.href ≡ href)
  unfolding normalize_redis_url
  normalize_redis_url-href (str s) href h =
      let (given, h0) = guards->>-eq-ok _ _ h in
      let (first, is_first, h1) = >>=-eq-ok (parsed parse_url _ s) _ h0 in
      let (known, h2) = guards->>-eq-ok _ _ h1 in (first, or_throw-some _ _ _ is_first, ok_inj h2)
  normalize_redis_url-href undef href h = cc
  normalize_redis_url-href null href h = cc
  normalize_redis_url-href (bool b) href h = cc
  normalize_redis_url-href (num n) href h = cc
  normalize_redis_url-href (arr xs) href h = cc
  normalize_redis_url-href (obj fs) href h = cc

  -- Whether there is a URL: as it was given, or for a Redis store as it is normalized.
  pub data IsUrlFact (config : Config) (url : Value) : Bool → Type 0 where
    as_given :
        is_text (lit "redis") config.token_store ≡ false → IsUrlFact config url (is_truthy url)
    normalized :
        (first : Url)
        → parse_url (text_of url) ≡ some first
        → IsUrlFact config url (is_truthy (str first.href))

module _ (print_number : Number → Text) (parse_url : Text → Option Url) where
  redis_settings-href :
      (config : Config) (redis : Value × Value)
      → redis_settings print_number parse_url config ≡ ok redis
      → (first : Url) × (parse_url (text_of config.token_store_url) ≡ some first)
        × (redis.0 ≡ str first.href)
  unfolding redis_settings
  redis_settings-href config redis h =
      let (url, is_url, h0) =
        >>=-eq-ok (normalize_redis_url parse_url config.token_store_url) _ h in
      let (prefix, is_prefix, h1) =
        >>=-eq-ok (validate_redis_key_prefix print_number config.redis_key_prefix) _ h0 in
      let (tests, h2) = guards->>-eq-ok _ _ h1 in
      let (first, is_first, is_href) =
        normalize_redis_url-href parse_url config.token_store_url url is_url in
      (first, is_first, sym (ap (λ p. p.0) (ok_inj h2)) ∙ ap str (sym is_href))

  tls_of-IsTlsFact :
      (config : Config) (a : Value) (c : Config) (redis : Value × Value) (is_redis asked : Bool)
      (tls : Value)
      → is_text (lit "redis") config.token_store ≡ is_redis
      → is_truthy config.redis_tls_enabled ≡ asked
      → validate_redis print_number parse_url (with_url config a) is_redis ≡ ok redis
      → c.token_store_url ≡ redis.0
      → tls_of parse_url c is_redis asked ≡ ok tls
      → IsTlsFact parse_url config a tls
  tls_of-IsTlsFact config a c redis false asked tls is_store is_asked valid url h =
      rw (← ok_inj h) (no_redis is_store)
  tls_of-IsTlsFact config a c redis true true tls is_store is_asked valid url h =
      rw (← ok_inj h) (asked_for (ground (arith, is_asked)))
  tls_of-IsTlsFact config a c redis true false tls is_store is_asked valid url h =
      let (first, is_first, is_href) = redis_settings-href (with_url config a) redis valid in
      let (second, is_second, h1) = >>=-eq-ok (url_of parse_url c.token_store_url) _ h in
      let reads : parse_url first.href ≡ some second =
        ap (λ v. parse_url (text_of v)) (sym is_href ∙ sym url) ∙ or_throw-some _ _ _ is_second in
      rw (← ok_inj h1) (by_protocol first second is_first reads)

  validate_redis-IsUrlFact :
      (config : Config) (a : Value) (redis : Value × Value) (is_redis : Bool)
      → is_text (lit "redis") config.token_store ≡ is_redis
      → validate_redis print_number parse_url (with_url config a) is_redis ≡ ok redis
      → IsUrlFact parse_url config a (is_truthy redis.0)
  validate_redis-IsUrlFact config a redis false is_store valid =
      let same : a ≡ redis.0 = ap (λ p. p.0) (ok_inj valid) in rw (← same) (as_given is_store)
  validate_redis-IsUrlFact config a redis true is_store valid =
      let (first, is_first, is_href) = redis_settings-href (with_url config a) redis valid in
      rw is_href (normalized first is_first)

  pub summarize-IsUrlFact :
      (config : Config) (a : Value) (c : Config) (s : Summary)
      → IsMade print_number parse_url (with_url config a) c
      → summarize parse_url c ≡ ok s
      → IsUrlFact parse_url config a s.has_token_store_url
  unfolding summarize
  summarize-IsUrlFact config a c s made h =
      let (api, is_api, h0) = >>=-eq-ok (url_of parse_url c.api_base_url) _ h in
      let (relay, is_relay, h1) = >>=-eq-ok (url_of parse_url c.relay_public_url) _ h0 in
      let (tls, is_tls, h2) =
        >>=-eq-ok
          (tls_of parse_url c (is_text (lit "redis") c.token_store) (is_truthy c.redis_tls_enabled))
          _ h1 in
      let url : c.token_store_url ≡ made.redis.0 = sym (ap (λ x. x.token_store_url) made.made) in
      let shows : is_truthy made.redis.0 ≡ s.has_token_store_url =
        sym (ap is_truthy url) ∙ ap (λ x. x.has_token_store_url) (ok_inj h2) in
      rw (← shows) (validate_redis-IsUrlFact config a made.redis _ refl made.is_redis)

  pub summarize-IsTlsFact :
      (config : Config) (a : Value) (c : Config) (s : Summary)
      → IsMade print_number parse_url (with_url config a) c
      → summarize parse_url c ≡ ok s
      → IsTlsFact parse_url config a s.redis_tls_enabled
  unfolding summarize
  summarize-IsTlsFact config a c s made h =
      let (api, is_api, h0) = >>=-eq-ok (url_of parse_url c.api_base_url) _ h in
      let (relay, is_relay, h1) = >>=-eq-ok (url_of parse_url c.relay_public_url) _ h0 in
      let (tls, is_tls, h2) =
        >>=-eq-ok
          (tls_of parse_url c (is_text (lit "redis") c.token_store) (is_truthy c.redis_tls_enabled))
          _ h1 in
      let store : c.token_store ≡ config.token_store = sym (ap (λ x. x.token_store) made.made) in
      let asked : c.redis_tls_enabled ≡ config.redis_tls_enabled =
        sym (ap (λ x. x.redis_tls_enabled) made.made) in
      let url : c.token_store_url ≡ made.redis.0 = sym (ap (λ x. x.token_store_url) made.made) in
      let shows : tls ≡ s.redis_tls_enabled = ap (λ x. x.redis_tls_enabled) (ok_inj h2) in
      let fact =
        tls_of-IsTlsFact config a c made.redis (is_text (lit "redis") config.token_store)
          (is_truthy config.redis_tls_enabled) tls refl refl made.is_redis url
          (rw (store, asked) at is_tls) in
      rw (← shows) fact
