-- ===== src/Tokens/Redis/Refinement.antt =====
-- The Redis store answers as the registry of server/tokens/token_registry.js does.
use mathlib.Core.List.{append_cancel_left}
use slaif_connect.Base.{
  ℕ, ◌+◌, ◌≤◌, ◌≡◌, ◌↔◌, refl, sym, ◌∙◌, true, Option, none, some, Text, lit, text_eq, text_eq_iff,
  arith, Result, ok, err, Bool-cases, Option-cases, Result-cases, inl, inr, ltb,
}
use slaif_connect.Base.Table.{Table, get, put, get-put, IsUnique, Values, get-Values, put-Values}
use slaif_connect.Tokens.Types.{
  TokenError, unknown_token, TokenRecord, Expected, assert_token_value,
}
use slaif_connect.Tokens.Check.{Admits, check_record, check_record_iff}
use slaif_connect.Tokens.Registry.{Registry, admit, lookup, use_once}
use slaif_connect.Tokens.Registry
use slaif_connect.Tokens.Redis
use slaif_connect.Tokens.Redis.{
  Store, stringify, key_for_hash, key_for_token, script_check, json_entries, consume_script,
}
use slaif_connect.Tokens.Redis.Server.{Redis, Stored, until, replaced}
use slaif_connect.Tokens.Redis.Script.{IsCanonical, script_check_iff}

-- What the server still holds of a record at an instant.
abbrev pub held : ℕ → ℕ → Option TokenRecord → Option Stored
held grace t none = none
held grace t (some r) = until (r.expires_at + grace) t (stringify r)

key_for_hash-injective : (prefix a b : Text) → key_for_hash prefix a ≡ key_for_hash prefix b → a ≡ b
unfolding key_for_hash
key_for_hash-injective prefix a b e =
    append_cancel_left (lit ":token:") a b (append_cancel_left prefix _ _ e)

pub text_eq-key_for_hash :
    (prefix a b : Text) → text_eq (key_for_hash prefix a) (key_for_hash prefix b) ≡ text_eq a b
text_eq-key_for_hash prefix a b = elim (Bool-cases (text_eq a b)) [
  | inl same ↦
      rw (same, (text_eq_iff a b).0 same)
        ((text_eq_iff (key_for_hash prefix b) (key_for_hash prefix b)).1 refl)
  | inr other ↦ rw other (
      ground (
        arith,
        text_eq_iff a b,
        text_eq_iff (key_for_hash prefix a) (key_for_hash prefix b),
        key_for_hash-injective prefix a b,
      ))
]

-- The value of a key is written anew, and the expiry stays.
replaced-held :
    (grace t : ℕ) (r q : TokenRecord)
    → q.expires_at ≡ r.expires_at
    → replaced (held grace t (some r)) (stringify q) ≡ held grace t (some q)
replaced-held grace t r q e = ground arith

module _ (redis : Redis) (sha256 : Text → Text) (prefix : Text) (grace : ℕ) where
  open redis use {State, pairs_order}

  -- From an instant on, the server holds the registry's records under their keys, as JSON, each
  -- until its expiry and the grace period have passed. The keys of each record's metadata are distinct.
  pub record Holds (at : ℕ) (records : Table TokenRecord) (st : State) : Type 0 where
    pub view :
        (t : ℕ) (hash : Text)
        → at ≤ t
        → redis.get t st (key_for_hash prefix hash) ≡ held grace t (get hash records)
    pub tidy : Values (λ r. IsUnique r.metadata) records

  -- Both stores return a record, the one as JSON keeps the other, or both throw.
  abbrev pub SameAnswer : Result TokenError TokenRecord → Result TokenError TokenRecord → Type 0
  SameAnswer (ok r) (ok q) = q ≡ record r { metadata = json_entries r.metadata }
  SameAnswer (err e) (err d) = Unit
  SameAnswer _ _ = ⊥

  abbrev key : Text → Text
  key hash = key_for_hash prefix hash

  write-Holds :
      (at : ℕ) (records : Table TokenRecord) (st : State) (hash : Text) (r q : TokenRecord)
      (w : Stored)
      → Holds at records st
      → get hash records ≡ some r
      → redis.get at st (key hash) ≡ some w
      → q.expires_at ≡ r.expires_at
      → IsUnique q.metadata
      → Holds at (put hash q records) (redis.set_keep_ttl at st (key hash) (stringify q))
  write-Holds at records st hash r q w h found there expiry tidy = record {
    view = λ t j later.
        let stored =
          redis.get-set_keep_ttl at st (key hash) (stringify q) w t (key j) there later in
        let before = h.view t hash later in
        let other = h.view t j later in
        rw (stored, text_eq-key_for_hash prefix hash j, get-put hash j q records)
          (elim (Bool-cases (text_eq hash j)) [
            | inl same ↦ rw (same, before, found) (replaced-held grace t r q expiry)
            | inr apart ↦ rw apart other
          ]);
    tidy = put-Values (λ x. IsUnique x.metadata) hash q records tidy h.tidy;
  }

  module _ (at : ℕ) (m : Registry) (s : Store redis sha256 prefix grace) (token : Option Text)
      (e : Expected) (holds : Holds at m.records s.server) (canonical : IsCanonical e) where
    abbrev memory : Result TokenError TokenRecord × Registry
    memory = Registry.consume_token sha256 at m token e

    abbrev remote : Result TokenError TokenRecord × Store redis sha256 prefix grace
    remote = Redis.consume_token redis sha256 prefix grace at s token e

    abbrev Refined : Type 0
    Refined = SameAnswer memory.0 remote.0 × Holds at memory.1.records remote.1.server

    refined_malformed : (x : TokenError) → assert_token_value token ≡ err x → Refined
    unfolding Registry.consume_token Redis.consume_token admit lookup key_for_token
    refined_malformed x p = rw p (tt, holds)

    module _ (value : Text) (sized : assert_token_value token ≡ ok value) where
      -- Both stores throw, and neither changes a record.
      both_throw :
          (x y : TokenError)
          → admit sha256 at m token e ≡ err x
          → consume_script redis sha256 prefix grace at s.server (key (sha256 value)) e
            ≡ (err y, s.server)
          → Refined
      unfolding Registry.consume_token Redis.consume_token key_for_token
      both_throw x y p q = rw (p, sized, q) (tt, holds)

      absent : get (sha256 value) m.records ≡ none → Refined
      unfolding admit lookup consume_script
      absent missing =
          both_throw unknown_token unknown_token (rw (sized, missing))
            (rw (holds.view at (sha256 value) (omega arith), missing))

      module _ (r : TokenRecord) (found : get (sha256 value) m.records ≡ some r) where
        tidy : IsUnique r.metadata
        tidy = get-Values (λ x. IsUnique x.metadata) (sha256 value) m.records r holds.tidy found

        there :
            ltb at (r.expires_at + grace) ≡ true
            → redis.get at s.server (key (sha256 value)) ≡ some (stringify r)
        there early = rw (holds.view at (sha256 value) (omega arith), found, early)

        decides :
            (script_check pairs_order at (record r { metadata = json_entries r.metadata }) e
              ≡ ok tt)
            ↔ Admits at r e
        decides =
            script_check_iff pairs_order redis.pairs_order-all redis.pairs_order-only at r e tidy
              canonical

        accepted : check_record at r e ≡ ok tt → Refined
        unfolding Registry.consume_token Redis.consume_token key_for_token admit lookup
            consume_script
        accepted checked =
            let admitted = (check_record_iff at r e).0 checked in
            let usable = admitted.usable in
            let stored = there (ground arith) in
            rw (sized, found, checked, stored, decides.1 admitted)
              (
                refl,
                write-Holds at m.records s.server (sha256 value) r (use_once r) (stringify r) holds
                    found stored refl tidy,
              )

        refused : (x : TokenError) → check_record at r e ≡ err x → Refined
        unfolding admit lookup consume_script
        refused x checked = elim (Bool-cases (ltb at (r.expires_at + grace))) [
          | inl early ↦
              elim (Result-cases
                (script_check pairs_order at (record r { metadata = json_entries r.metadata }) e)) [
                  | inl (_, passes) ↦ absurd (
                      let both = (check_record_iff at r e).1 (decides.0 passes) in
                      let clash = sym checked ∙ both in cc)
                  | inr (y, fails) ↦
                      both_throw x y (rw (sized, found, checked)) (rw (there early, fails))
                ]
          | inr late ↦
              both_throw x unknown_token (rw (sized, found, checked))
                (rw (holds.view at (sha256 value) (omega arith), found, late))
        ]

      sized_Refined : Refined
      sized_Refined = elim (Option-cases (get (sha256 value) m.records)) [
        | inl missing ↦ absent missing
        | inr (r, found) ↦ elim (Result-cases (check_record at r e)) [
          | inl (_, checked) ↦ accepted r found checked
          | inr (x, checked) ↦ refused r found x checked
        ]
      ]

    consume_Refined : Refined
    consume_Refined = elim (Result-cases (assert_token_value token)) [
      | inl (value, sized) ↦ sized_Refined value sized
      | inr (x, malformed) ↦ refined_malformed x malformed
    ]

  -- Where the server holds the records of the registry from now on, each until its expiry and the
  -- grace period have passed, the keys of each record's metadata are distinct, and the expectation
  -- has no empty text and has metadata that is undefined or an object (no array) with no undefined
  -- value, `consumeToken` of the Redis store and of the registry both return the record, with one
  -- more use, or both throw; and the server again holds the records of the registry.
  pub consume_token-refines :
      (at : ℕ) (m : Registry) (s : Store redis sha256 prefix grace) (token : Option Text)
      (e : Expected)
      → Holds at m.records s.server
      → IsCanonical e
      → SameAnswer
          (Registry.consume_token sha256 at m token e).0
          (Redis.consume_token redis sha256 prefix grace at s token e).0
        × Holds at
            (Registry.consume_token sha256 at m token e).1.records
            (Redis.consume_token redis sha256 prefix grace at s token e).1.server
  consume_token-refines at m s token e holds canonical =
      consume_Refined at m s token e holds canonical
