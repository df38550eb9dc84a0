-- ===== src/Deployment/Urls.antt =====
-- The URLs of server/config/deployment_config.js. `parse_url` is `new URL`, which is `none` where it
-- throws. An error is its code.
use slaif_connect.Base.{
  trim, Bool, not, ◌||◌, ◌&&◌, Option, none, some, List, [], ◌∷◌, ◌++◌, Text, lit, text_eq,
  includes, ◌==◌, any, Result, ok, err, ◌>>=◌, ◌>>◌, guards,
}
use slaif_connect.Base.Value.{Value, str}
use slaif_connect.Deployment.Types.{Url, local_hosts, redis_protocols}
use slaif_connect.Deployment.Strings.{drop_slash}

abbrev pub or_throw : Text → Option Url → Result Text Url
or_throw code none = err code
or_throw code (some u) = ok u

module _ (parse_url : Text → Option Url) where
  abbrev pub parsed : Text → Text → Result Text Url
  parsed code s = or_throw code (parse_url s)

  unfoldable pub normalize_url : Text → Value → Result Text Text
  normalize_url name (str s) =
      guards ((text_eq (trim s) [], lit "missing_" ++ name) ∷ [])
      >> (parsed (lit "invalid_" ++ name) s >>= λ u. ok (drop_slash u.href))
  normalize_url name _ = err (lit "missing_" ++ name)

  unfoldable pub normalize_origin : Text → Text → Result Text Text
  normalize_origin name s =
      guards (
        (text_eq (trim s) [], lit "missing_" ++ name)
        ∷ (any (λ c. c == b'*') s, lit "wildcard_" ++ name)
        ∷ [])
      >> (parsed (lit "invalid_" ++ name) s >>= λ u.
          guards (
            (
              not (text_eq u.pathname (lit "/"))
                  || not (text_eq u.search [])
                  || not (text_eq u.hash []),
              lit "invalid_" ++ name,
            )
            ∷ [])
          >> ok u.origin)

  unfoldable pub normalize_redis_url : Value → Result Text Text
  normalize_redis_url (str s) =
      guards ((text_eq (trim s) [], lit "missing_token_store_url") ∷ [])
      >> (parsed (lit "invalid_redis_url") s >>= λ u.
          guards ((not (includes redis_protocols u.protocol), lit "invalid_redis_url") ∷ [])
          >> ok u.href)
  normalize_redis_url _ = err (lit "missing_token_store_url")

  -- `requireProtocol` parses the URL again.
  unfoldable pub require_protocol : Text → Text → Text → Bool → Result Text (Unit {0})
  require_protocol s allowed name allow_local_insecure = parsed (lit "ERR_INVALID_URL") s >>= λ u.
      guards (
        (
          not (
              text_eq u.protocol allowed
              || (allow_local_insecure
                  && includes local_hosts u.hostname
                  && includes (lit "http:" ∷ lit "ws:" ∷ []) u.protocol)),
          lit "unsafe_" ++ (name ++ lit "_protocol"),
        )
        ∷ [])

  unfoldable pub normalize_origins : List Text → Result Text (List Text)
  normalize_origins [] = ok []
  normalize_origins (t ∷ ts) = normalize_origin (lit "allowedWebOrigin") t >>= λ o.
      normalize_origins ts >>= λ os. ok (o ∷ os)

  unfoldable pub require_origins : List Text → Bool → Result Text (Unit {0})
  require_origins [] local = ok tt
  require_origins (t ∷ ts) local =
      require_protocol t (lit "https:") (lit "allowedWebOrigin") local >> require_origins ts local
