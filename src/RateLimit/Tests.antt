-- ===== src/RateLimit/Tests.antt =====
-- The rate limiter at concrete inputs.
use Prim.Native.Nat.{min}
use slaif_connect.Base.{
  ◌-◌, ◌≡◌, refl, true, false, Text, lit, text_eq, [], ◌∷◌, List, some, ok, err, arith,
}
use slaif_connect.Base.Table.{get, put}
use slaif_connect.Base.Value.{str}
use slaif_connect.RateLimit.{
  Limiter, Bucket, Input, Answer, key_for, consume, check_limit, current_bucket,
  rate_limit_exceeded,
}
use slaif_connect.RateLimit.Quota.{Call, consumes, checks, accepts, requests, step, accepts-eq-min}
use slaif_connect.RateLimit.Buckets.{
  consume-new_window, check_limit-consume, key_for-injective, scope_text, key_text,
}

abbrev sample_input : Input
sample_input = record { scope = str (lit "login"); key = str (lit "10.0.0.1") }

abbrev sample_id : Text
sample_id = lit "login:10.0.0.1"

abbrev sample_bucket : Bucket
sample_bucket = record { count = 1; reset_at = 1000 }

abbrev sample_limiter : Limiter
sample_limiter = record {
  window_ms = 500;
  max = 2;
  buckets = (sample_id, sample_bucket) ∷ [];
  notices = [];
}

abbrev sample_calls : List Call
sample_calls = consumes 600 sample_input ∷ checks 650 sample_input ∷ consumes 700 sample_input ∷ []

sample_key : key_for sample_input ≡ ok sample_id
unfolding key_for
sample_key = refl

sample_found : get sample_id sample_limiter.buckets ≡ some sample_bucket
unfolding get text_eq
sample_found = refl

accepts-eq-min_example :
    accepts sample_id sample_limiter sample_calls
    ≡ min (requests sample_id sample_calls) (sample_limiter.max - sample_bucket.count)
accepts-eq-min_example =
    accepts-eq-min sample_id sample_limiter sample_bucket sample_calls sample_found (omega arith)

sample_accepts : accepts sample_id sample_limiter sample_calls ≡ 1
unfolding accepts step consume check_limit current_bucket key_for get put text_eq
sample_accepts = refl

consume-new_window_example :
    (consume 1000 sample_limiter sample_input).0
    ≡ ok (record { is_ok = true; remaining = 1; reset_at = 1500 })
unfolding get text_eq
consume-new_window_example =
    consume-new_window sample_id sample_limiter 1000 sample_input sample_key (omega arith)
      (omega arith)

check_limit-consume_example :
    (a : Answer) × ((check_limit 600 sample_limiter sample_input).0 ≡ ok a)
    × ((a.is_ok ≡ true)
        → (consume 600 (check_limit 600 sample_limiter sample_input).1 sample_input).0
          ≡ ok (record a { remaining = a.remaining - 1 }))
    × ((a.is_ok ≡ false)
        → (consume 600 (check_limit 600 sample_limiter sample_input).1 sample_input).0
          ≡ err rate_limit_exceeded)
check_limit-consume_example =
    check_limit-consume sample_id sample_limiter 600 sample_input sample_key (omega arith)

key_for-injective_example :
    (scope_text sample_input.scope ≡ scope_text sample_input.scope)
    × (key_text sample_input.key ≡ key_text sample_input.key)
key_for-injective_example =
    key_for-injective sample_input sample_input sample_id (omega arith) (omega arith) sample_key
      sample_key

-- A colon in the scope makes two inputs share a bucket.
colon_shares :
    key_for (record { scope = str (lit "a:b"); key = str (lit "c") })
    ≡ key_for (record { scope = str (lit "a"); key = str (lit "b:c") })
unfolding key_for
colon_shares = refl
