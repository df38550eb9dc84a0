-- ===== src/Intent/Payload.antt =====
-- `resolveIntentPayload` of server/workloads/session_intent.js with a policy.
use slaif_connect.Base.{
  ℕ, ◌≡◌, refl, Bool, true, false, not, Option, [], ◌∷◌, Text, lit, arith, map, all, lower,
  to_lower, is_word, class_match, ok, guards->>-eq-ok, >>=-eq-ok, ok_inj,
}
use slaif_connect.Base.Value.{Value, ℤ, str, property}
use slaif_connect.Catalog
use slaif_connect.Catalog.{Resolved, resolve_allowed_payload, safe_alias, lower_unit, is_alias}
use slaif_connect.Catalog.Resolve.{
  Lists, resolve_allowed_payload_sound, resolve_allowed_payload-safe_alias,
}
use slaif_connect.Intent.{
  SessionIntent, by_policy, by_catalog, choose, validate_hpc_alias, validate_session_intent,
  resolve_intent_payload,
}
use slaif_connect.Intent.Again.{validate_session_intent-IsIntent}

lower_unit-eq : (c : ℕ) → is_word c ≡ true → lower_unit c ≡ lower c
unfolding is_word lower
lower_unit-eq c h = ground arith

-- The two ways in which aliases are lowered agree on an alias.
lower_unit-fixed : (s : Text) → all is_word s ≡ true → map lower_unit s ≡ to_lower s
lower_unit-fixed [] h = refl
lower_unit-fixed (c ∷ s) h =
    let first : is_word c ≡ true = ground arith in
    let rest : all is_word s ≡ true = ground arith in
    cc (lower_unit-eq c first, lower_unit-fixed s rest)

fixed_alias :
    (hpc alias : Text)
    → validate_hpc_alias (str hpc) ≡ ok hpc
    → safe_alias (str hpc) ≡ ok alias
    → alias ≡ hpc
unfolding validate_hpc_alias safe_alias class_match
fixed_alias hpc alias valid safe =
    let (tests, last) =
      guards->>-eq-ok ((not (class_match is_word 1 64 hpc), lit "invalid_hpc") ∷ [])
        (ok (to_lower hpc)) valid in
    let (others, made) =
      guards->>-eq-ok ((not (is_alias (map lower_unit hpc)), lit "invalid_hpc") ∷ [])
        (ok (map lower_unit hpc)) safe in
    let lowered : to_lower hpc ≡ hpc = ok_inj last in
    let is : map lower_unit hpc ≡ alias = ok_inj made in
    let words : all is_word hpc ≡ true = ground (arith, tests.0) in cc (lower_unit-fixed hpc words)

chosen_by :
    (source : Value) (i : SessionIntent) (r : Resolved) (bare : Bool)
    → choose source i bare ≡ ok (by_policy r)
    → resolve_allowed_payload source (str i.hpc) (str i.payload_id) ≡ ok r
chosen_by source i r false h =
    let (found, resolved, last) =
      >>=-eq-ok (resolve_allowed_payload source (str i.hpc) (str i.payload_id)) _ h in
    let same : by_policy found ≡ by_policy r = ok_inj last in
    let found_it : found ≡ r = cc in rw (← found_it) resolved
chosen_by source i r true h =
    let (id, valid, last) =
      >>=-eq-ok (Catalog.validate_payload_id (str i.payload_id))
        (λ id. ok (by_catalog id (property i.payload_id source) i.hpc)) h in
    let apart : by_catalog id (property i.payload_id source) i.hpc ≡ by_policy r = ok_inj last in cc

listed_as :
    (host : Value) (a b : Text)
    → a ≡ b
    → Lists (str a) (property (lit "allowedPayloadIds") host)
    → Lists (str b) (property (lit "allowedPayloadIds") host)
listed_as host a b e h = rw (← e) h

-- What a policy gives for an intent is the payload of the intent at the host of the intent: the intent
-- was accepted, the host is that of the policy under its alias and lists the payload's id, and the
-- definition is that of the policy under this id.
pub resolve_intent_payload_sound :
    (parse_date : Text → Option ℤ) (now : ℤ) (intent policy : Value) (r : Resolved)
    → resolve_intent_payload parse_date now intent policy ≡ ok (by_policy r)
    → (i : SessionIntent) × (validate_session_intent parse_date now intent ≡ ok i)
      × (r.payload_id ≡ i.payload_id)
      × (r.host ≡ property i.hpc (property (lit "hosts") policy))
      × (r.payload ≡ property i.payload_id (property (lit "allowedPayloads") policy))
      × Lists (str i.payload_id) (property (lit "allowedPayloadIds") r.host)
unfolding resolve_intent_payload
resolve_intent_payload_sound parse_date now intent policy r h =
    let (i, accepted, chosen) = >>=-eq-ok (validate_session_intent parse_date now intent) _ h in
    let resolved = chosen_by policy i r _ chosen in
    let is = validate_session_intent-IsIntent parse_date now intent i accepted in
    let alias =
      fixed_alias i.hpc r.hpc is.host (resolve_allowed_payload-safe_alias policy _ _ r resolved) in
    let (asked, host, payload, listed, kind) =
      resolve_allowed_payload_sound policy _ _ r resolved in
    let id : r.payload_id ≡ i.payload_id = cc in
    (
      i,
      accepted,
      id,
      rw (← alias) host,
      rw (← id) payload,
      listed_as r.host r.payload_id i.payload_id id listed,
    )
