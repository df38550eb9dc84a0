-- ===== src/Tokens/Redis/Server.antt =====
-- The Redis server as server/tokens/redis_token_store.js uses it: a service, so its operations are
-- parameters, with what Redis documents of them as laws.
use slaif_connect.Base.{
  ℕ, ◌+◌, ◌≤◌, ◌≡◌, Bool, true, false, Option, none, some, List, Text, text_eq, ltb, All,
  if◌then◌else◌, any,
}
use slaif_connect.Base.Table.{Table}
use slaif_connect.Tokens.Types.{TokenRecord, Scalar}

-- A value of a key: the JSON of a record, or a text that is no JSON.
pub data Stored : Type 0 where
  json : TokenRecord → Stored
  corrupt : Stored

-- What a key set at `at` for `px` milliseconds reads at `t`.
abbrev pub until : ℕ → ℕ → Stored → Option Stored
until drop_at t v = if ltb t drop_at then some v else none

-- What a key holds if its value is replaced and its expiry kept.
abbrev pub replaced : Option Stored → Stored → Option Stored
replaced none v = none
replaced (some w) v = some v

pub record Redis : Type 1 where
  pub State : Type 0
  -- GET at an instant
  pub get : ℕ → State → Text → Option Stored
  -- SET key value PX px NX, which tells whether it has set the key
  pub set_new : ℕ → State → Text → Stored → ℕ → Bool × State
  -- SET key value PX px
  pub set : ℕ → State → Text → Stored → ℕ → State
  -- SET key value KEEPTTL
  pub set_keep_ttl : ℕ → State → Text → Stored → State
  pub del : State → Text → State
  -- the keys that a whole SCAN returns
  pub scan : ℕ → State → List Text
  -- the order in which `pairs` of Lua visits the entries of a table
  pub pairs_order : Table Scalar → Table Scalar
  pub get-set_new :
      (at : ℕ) (s : State) (k : Text) (v : Stored) (px : ℕ)
      → get at s k ≡ none
      → ((set_new at s k v px).0 ≡ true)
        × ((t : ℕ) (j : Text)
            → at ≤ t
            → get t (set_new at s k v px).1 j
              ≡ (if text_eq k j then until (at + px) t v else get t s j))
  pub set_new-taken :
      (at : ℕ) (s : State) (k : Text) (v w : Stored) (px : ℕ)
      → get at s k ≡ some w
      → ((set_new at s k v px).0 ≡ false) × ((set_new at s k v px).1 ≡ s)
  pub get-set :
      (at : ℕ) (s : State) (k : Text) (v : Stored) (px t : ℕ) (j : Text)
      → at ≤ t
      → get t (set at s k v px) j ≡ (if text_eq k j then until (at + px) t v else get t s j)
  pub get-set_keep_ttl :
      (at : ℕ) (s : State) (k : Text) (v w : Stored) (t : ℕ) (j : Text)
      → get at s k ≡ some w
      → at ≤ t
      → get t (set_keep_ttl at s k v) j
        ≡ (if text_eq k j then replaced (get t s k) v else get t s j)
  pub get-del :
      (s : State) (k : Text) (t : ℕ) (j : Text)
      → get t (del s k) j ≡ (if text_eq k j then none else get t s j)
  -- SCAN returns every key that is there throughout
  pub scan-complete :
      (at : ℕ) (s : State) (k : Text) (v : Stored)
      → get at s k ≡ some v
      → any (text_eq k) (scan at s) ≡ true
  -- `pairs` visits the entries of the table and no others
  pub pairs_order-all :
      (P : Text × Scalar → Type 0) (m : Table Scalar) → All P m → All P (pairs_order m)
  pub pairs_order-only :
      (P : Text × Scalar → Type 0) (m : Table Scalar) → All P (pairs_order m) → All P m
