-- ===== src/Catalog/Resolve.antt =====
-- What `resolveAllowedPayload` of extension/js/payload_catalog.js gives.
use slaif_connect.Base.{
  ◌≡◌, ◌⊎◌, inl, inr, refl, true, List, [], ◌∷◌, Text, lit, includes, text_eq, text_eq_iff, arith,
  ok, ◌>>◌, guards, >>=-eq-ok, guards->>-eq-ok, Bool-cases, ok_inj,
}
use slaif_connect.Base.Value.{
  Value, Items, Fields, undef, null, bool, num, str, arr, obj, nil, cons, end, field, get_field,
  has_key, property,
}
use slaif_connect.Catalog.{
  Resolved, validate_payload_id, validate_payload_definition, validate_entries,
  validate_payload_catalog, validate_refs, validate_host_payload_refs, refs_of, safe_alias,
  resolve_allowed_payload,
}
use slaif_connect.Catalog.Payloads.{
  IsPayload, validate_payload_id-eq-ok, validate_payload_definition-IsPayload,
}

abbrev In : Value → Items → Type 0
In v nil = ⊥
In v (cons w xs) = (w ≡ v) ⊎ In v xs

-- The value stands in the array.
abbrev pub Lists : Value → Value → Type 0
Lists v (arr xs) = In v xs
Lists v _ = ⊥

-- `validate_entries` has seen the value of every key.
validate_entries-get_field :
    (fs : Fields) (id : Text)
    → validate_entries fs ≡ ok tt
    → has_key id fs ≡ true
    → validate_payload_definition id (get_field id fs) ≡ ok tt
unfolding validate_entries has_key get_field
validate_entries-get_field end id h k = cc
validate_entries-get_field (field j payload fs) id h k =
    let (u, first, rest) = >>=-eq-ok (validate_payload_definition j payload) _ h in
    elim (Bool-cases (text_eq j id)) [
      | inl hit ↦ let same = (text_eq_iff j id).0 hit in rw hit (rw (← same) first)
      | inr miss ↦ rw miss (validate_entries-get_field fs id rest (ground arith))
    ]

validate_payload_catalog-eq-ok :
    (catalog : Value) (fs : Fields)
    → validate_payload_catalog catalog ≡ ok fs
    → (catalog ≡ obj fs) × (validate_entries fs ≡ ok tt)
unfolding validate_payload_catalog
validate_payload_catalog-eq-ok (obj (field id payload fs)) gs h =
    let (u, entries, last) = >>=-eq-ok (validate_entries (field id payload fs)) _ h in
    let same : field id payload fs ≡ gs = ground arith in rw (← same) (refl, entries)
validate_payload_catalog-eq-ok (obj end) gs h = cc
validate_payload_catalog-eq-ok undef gs h = cc
validate_payload_catalog-eq-ok null gs h = cc
validate_payload_catalog-eq-ok (bool b) gs h = cc
validate_payload_catalog-eq-ok (num n) gs h = cc
validate_payload_catalog-eq-ok (str s) gs h = cc
validate_payload_catalog-eq-ok (arr xs) gs h = cc

validate_refs-listed :
    (seen : List Text) (catalog : Fields) (xs : Items) (ids : List Text) (id : Text)
    → validate_refs seen catalog xs ≡ ok ids
    → includes ids id ≡ true
    → In (str id) xs × (has_key id catalog ≡ true)
unfolding validate_refs includes
validate_refs-listed seen catalog nil ids id h k =
    let made : [] ≡ ids = ground arith in let none_left = rw (← made) at k in cc
validate_refs-listed seen catalog (cons v xs) ids id h k =
    let (first, named, rest) = >>=-eq-ok (validate_payload_id v) _ h in
    let (more, others, last) =
      >>=-eq-ok (guards _ >> validate_refs (first ∷ seen) catalog xs) (λ ids. ok (first ∷ ids))
        rest in
    let (tests, listed) = guards->>-eq-ok _ (validate_refs (first ∷ seen) catalog xs) others in
    let is = (validate_payload_id-eq-ok v first named).0 in
    let made : first ∷ more ≡ ids = ground arith in
    let listed_now = rw (← made) at k in
    elim (Bool-cases (text_eq first id)) [
      | inl hit ↦
          let same = (text_eq_iff first id).0 hit in rw (← same) (inl is, ground (arith, tests.1.0))
      | inr miss ↦
          let (later, known) =
            validate_refs-listed (first ∷ seen) catalog xs more id listed (ground arith) in
          (inr later, known)
    ]

validate_host_payload_refs-eq-ok :
    (host catalog : Value) (payloads : Fields) (ids : List Text) (id : Text)
    → validate_payload_catalog catalog ≡ ok payloads
    → validate_host_payload_refs host catalog ≡ ok ids
    → includes ids id ≡ true
    → (fs : Fields) × (host ≡ obj fs)
      × Lists (str id) (get_field (lit "allowedPayloadIds") fs)
      × (has_key id payloads ≡ true)
unfolding validate_host_payload_refs
validate_host_payload_refs-eq-ok (obj fs) catalog payloads ids id valid h k =
    let (found, again, rest) = >>=-eq-ok (validate_payload_catalog catalog) _ h in
    let same : found ≡ payloads = ground arith in
    let (listed, known) =
      refs_of-listed found (get_field (lit "allowedPayloadIds") fs) ids id rest k in
    (fs, refl, listed, rw (← same) known)
  where
    refs_of-listed :
        (payloads : Fields) (v : Value) (ids : List Text) (id : Text)
        → refs_of payloads v ≡ ok ids
        → includes ids id ≡ true
        → Lists (str id) v × (has_key id payloads ≡ true)
    refs_of-listed payloads (arr (cons v xs)) ids id e k =
        validate_refs-listed [] payloads (cons v xs) ids id e k
    refs_of-listed payloads (arr nil) ids id e k = cc
    refs_of-listed payloads undef ids id e k = cc
    refs_of-listed payloads null ids id e k = cc
    refs_of-listed payloads (bool b) ids id e k = cc
    refs_of-listed payloads (num n) ids id e k = cc
    refs_of-listed payloads (str s) ids id e k = cc
    refs_of-listed payloads (obj fs) ids id e k = cc
validate_host_payload_refs-eq-ok undef catalog payloads ids id valid h k = cc
validate_host_payload_refs-eq-ok null catalog payloads ids id valid h k = cc
validate_host_payload_refs-eq-ok (bool b) catalog payloads ids id valid h k = cc
validate_host_payload_refs-eq-ok (num n) catalog payloads ids id valid h k = cc
validate_host_payload_refs-eq-ok (str s) catalog payloads ids id valid h k = cc
validate_host_payload_refs-eq-ok (arr xs) catalog payloads ids id valid h k = cc

of_object : (v : Value) (fs : Fields) (key : Text) → v ≡ obj fs → get_field key fs ≡ property key v
of_object v fs key e = rw e refl

listed_at :
    (v : Value) (fs : Fields) (key : Text) (w : Value)
    → v ≡ obj fs
    → Lists w (get_field key fs)
    → Lists w (property key v)
listed_at v fs key w e here = rw e here

-- What `resolveAllowedPayload` gives is the payload that was asked for: the host that the policy has
-- under the alias is an object that lists the payload's id, and the definition that the catalog has
-- under the id is a payload of one of the two kinds.
pub resolve_allowed_payload_sound :
    (policy hpc payload_id : Value) (r : Resolved)
    → resolve_allowed_payload policy hpc payload_id ≡ ok r
    → (payload_id ≡ str r.payload_id)
      × (r.host ≡ property r.hpc (property (lit "hosts") policy))
      × (r.payload ≡ property r.payload_id (property (lit "allowedPayloads") policy))
      × Lists (str r.payload_id) (property (lit "allowedPayloadIds") r.host)
      × IsPayload r.payload_id r.payload
unfolding resolve_allowed_payload
resolve_allowed_payload_sound policy hpc payload_id r h =
    let (is_object, h0) = guards->>-eq-ok _ _ h in
    let (id, named, h1) = >>=-eq-ok (validate_payload_id payload_id) _ h0 in
    let (alias, aliased, h2) = >>=-eq-ok (safe_alias hpc) _ h1 in
    let (payloads, valid, h3) =
      >>=-eq-ok (validate_payload_catalog (property (lit "allowedPayloads") policy)) _ h2 in
    let (there, h4) = guards->>-eq-ok _ _ h3 in
    let (ids, refs, h5) =
      >>=-eq-ok
        (validate_host_payload_refs (property alias (property (lit "hosts") policy))
          (property (lit "allowedPayloads") policy))
        _ h4 in
    let (listed, h6) = guards->>-eq-ok _ _ h5 in
    let (fs, is_host, here, known) =
      validate_host_payload_refs-eq-ok (property alias (property (lit "hosts") policy))
        (property (lit "allowedPayloads") policy) payloads ids id valid refs
        (ground (arith, listed.0)) in
    let (is_catalog, entries) =
      validate_payload_catalog-eq-ok (property (lit "allowedPayloads") policy) payloads valid in
    let accepted = validate_entries-get_field payloads id entries known in
    rw (← ok_inj h6) (
      (validate_payload_id-eq-ok payload_id id named).0,
      refl,
      of_object _ payloads id is_catalog,
      listed_at _ fs (lit "allowedPayloadIds") (str id) is_host here,
      validate_payload_definition-IsPayload id (get_field id payloads) accepted,
    )

-- The alias under which the host was looked up
pub resolve_allowed_payload-safe_alias :
    (policy hpc payload_id : Value) (r : Resolved)
    → resolve_allowed_payload policy hpc payload_id ≡ ok r
    → safe_alias hpc ≡ ok r.hpc
unfolding resolve_allowed_payload
resolve_allowed_payload-safe_alias policy hpc payload_id r h =
    let (is_object, h0) = guards->>-eq-ok _ _ h in
    let (id, named, h1) = >>=-eq-ok (validate_payload_id payload_id) _ h0 in
    let (alias, aliased, h2) = >>=-eq-ok (safe_alias hpc) _ h1 in
    let (payloads, valid, h3) =
      >>=-eq-ok (validate_payload_catalog (property (lit "allowedPayloads") policy)) _ h2 in
    let (there, h4) = guards->>-eq-ok _ _ h3 in
    let (ids, refs, h5) =
      >>=-eq-ok
        (validate_host_payload_refs (property alias (property (lit "hosts") policy))
          (property (lit "allowedPayloads") policy))
        _ h4 in
    let (listed, h6) = guards->>-eq-ok _ _ h5 in rw (← ok_inj h6) aliased
