-- ===== src/RateLimit.antt =====
-- server/rate_limit/rate_limiter.js: fixed windows of a length, with a bucket for each scope and key.
-- Each call takes the instant `now`. Instants are in the range of a Date.
pub mod Quota
pub mod Buckets
pub mod Tests
use slaif_connect.Base.{
  ℕ, ◌+◌, ◌-◌, Bool, true, false, Option, none, some, List, [], ◌∷◌, ◌++◌, Text, lit, text_eq, leb,
  ltb, length, if◌then◌else◌, Result, ok, err, ◌>>=◌,
}
use slaif_connect.Base.Table.{Table, get, put}
use slaif_connect.Base.Value.{Value, undef, str, num, int, pos, integer_from}

-- `error.code` of a RateLimitError
pub data RateLimitError : Type 0 where
  invalid_rate_limit_key invalid_rate_limit_scope invalid_rate_limit_window : RateLimitError
  invalid_rate_limit_max invalid_rate_limit_mode rate_limit_exceeded : RateLimitError
  rate_limiter_not_implemented : RateLimitError

pub record Bucket : Type 0 where
  pub count : ℕ
  pub reset_at : ℕ

-- `input` of a call: its scope, undefined or a value, and its key.
pub record Input : Type 0 where
  pub scope : Value
  pub key : Value

-- A call of the audit logger, or of the metrics registry, with the scope that it names.
pub data Notice : Type 0 where
  accepted rejected counted : Value → Notice

pub record Limiter : Type 0 where
  pub window_ms : ℕ
  pub max : ℕ
  pub buckets : Table Bucket
  pub notices : List Notice

-- What `checkLimit` and `consume` answer.
pub record Answer : Type 0 where
  pub is_ok : Bool
  pub remaining : ℕ
  pub reset_at : ℕ

abbrev bounded_text : ℕ → RateLimitError → Value → Result RateLimitError Text
bounded_text most e (str []) = err e
bounded_text most e (str (c ∷ s)) = if ltb most (length (c ∷ s)) then err e else ok (c ∷ s)
bounded_text most e _ = err e

-- The default of a parameter, for undefined.
abbrev default : Value → Value → Value
default d undef = d
default d v = v

unfoldable pub key_for : Input → Result RateLimitError Text
key_for input = do
  key ← bounded_text 512 invalid_rate_limit_key input.key
  scope ← bounded_text 128 invalid_rate_limit_scope (default (str (lit "default")) input.scope)
  ok (scope ++ (lit ":" ++ key))

abbrev or_throw : {A : Type 0} → Option A → RateLimitError → Result RateLimitError A
or_throw none e = err e
or_throw (some a) e = ok a

unfoldable pub create_memory_rate_limiter : Value → Value → Result RateLimitError Limiter
create_memory_rate_limiter window_ms max = do
  window ←
      or_throw (integer_from 100 (default (num (int (pos 60000))) window_ms))
        invalid_rate_limit_window
  most ← or_throw (integer_from 1 (default (num (int (pos 60))) max)) invalid_rate_limit_max
  ok (record { window_ms = window; max = most; buckets = []; notices = [] })

abbrev pub fresh_bucket : ℕ → Limiter → Bucket
fresh_bucket now s = record { count = 0; reset_at = now + s.window_ms }

abbrev started : ℕ → Limiter → Text → Bucket × Limiter
started now s id =
    (fresh_bucket now s, record s { buckets = put id (fresh_bucket now s) s.buckets })

-- `!existing || existing.resetAt <= now` starts a fresh bucket.
abbrev existing_or_fresh : ℕ → Limiter → Text → Option Bucket → Bucket × Limiter
existing_or_fresh now s id none = started now s id
existing_or_fresh now s id (some b) = if leb b.reset_at now then started now s id else (b, s)

unfoldable pub current_bucket : ℕ → Limiter → Text → Bucket × Limiter
current_bucket now s id = existing_or_fresh now s id (get id s.buckets)

abbrev answer : Limiter → Bucket → Answer
answer s b = record {
  is_ok = ltb b.count s.max;
  remaining = s.max - b.count;
  reset_at = b.reset_at;
}

abbrev check_bucket : Bucket × Limiter → Result RateLimitError Answer × Limiter
check_bucket (b, s) = (ok (answer s b), s)

abbrev check_keyed :
    ℕ → Limiter → Result RateLimitError Text → Result RateLimitError Answer × Limiter
check_keyed now s (ok id) = check_bucket (current_bucket now s id)
check_keyed now s (err e) = (err e, s)

unfoldable pub check_limit : ℕ → Limiter → Input → Result RateLimitError Answer × Limiter
check_limit now s input = check_keyed now s (key_for input)

abbrev one_more : Bucket → Bucket
one_more b = record b { count = b.count + 1 }

abbrev consume_bucket : Text → Value → Bucket × Limiter → Result RateLimitError Answer × Limiter
consume_bucket id scope (b, s) =
    if leb s.max b.count
    then (
      err rate_limit_exceeded,
      record s { notices = s.notices ++ (rejected scope ∷ counted scope ∷ []) },
    )
    else (
      ok (record (answer s (one_more b)) { is_ok = true }),
      record s {
        buckets = put id (one_more b) s.buckets;
        notices = s.notices ++ (accepted scope ∷ []);
      },
    )

abbrev consume_keyed :
    ℕ → Limiter → Value → Result RateLimitError Text → Result RateLimitError Answer × Limiter
consume_keyed now s scope (ok id) = consume_bucket id scope (current_bucket now s id)
consume_keyed now s scope (err e) = (err e, s)

unfoldable pub consume : ℕ → Limiter → Input → Result RateLimitError Answer × Limiter
consume now s input = consume_keyed now s input.scope (key_for input)

-- What `createRateLimiter` makes for a mode.
pub data Service : Type 0 where
  memory : Limiter → Service
  disabled : Service

unfoldable pub create_rate_limiter : Text → Value → Value → Result RateLimitError Service
create_rate_limiter mode window_ms max =
    if text_eq mode (lit "memory")
    then (do s ← create_memory_rate_limiter window_ms max; ok (memory s))
    else if text_eq mode (lit "disabled")
    then ok disabled
    else if text_eq mode (lit "external")
    then err rate_limiter_not_implemented
    else err invalid_rate_limit_mode
