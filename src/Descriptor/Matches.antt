-- ===== src/Descriptor/Matches.antt =====
-- What `validateSessionDescriptor` of extension/js/slaif_session_descriptor.js accepts.
use slaif_connect.Base.{
  ◌≡◌, ap, Bool, true, false, not, Option, none, some, List, [], ◌∷◌, Text, lit, arith, All,
  text_eq, text_eq_iff, Result, ok, guards->>-eq-ok, >>=-eq-ok, ok_inj,
}
use slaif_connect.Base.Value.{
  Value, Fields, ℤ, undef, null, bool, num, str, arr, obj, get_field, property, has_key, is_text,
  is_falsy,
}
use slaif_connect.Catalog
use slaif_connect.Catalog.{Resolved, resolve_allowed_payload}
use slaif_connect.Deployment.Types.{Url}
use slaif_connect.Deployment.Urls.{or_throw}
use slaif_connect.Descriptor.{
  Descriptor, forbidden_ssh_target_fields, reject_fields, reject_forbidden_fields, assert_object,
  validate_opaque_token, sanitize_username_hint, session_id_of, alias_of, listed,
  validate_relay_url, relay_of_policy, policy_allows_relay_url, expiry_of, if_policy,
  payload_allowed, validate_session_descriptor,
}

is_text-eq : (s : Text) (v : Value) → not (is_text s v) ≡ false → v ≡ str s
is_text-eq s (str t) h =
    let same : text_eq t s ≡ true = ground arith in ap str ((text_eq_iff t s).0 same)
is_text-eq s undef h = cc
is_text-eq s null h = cc
is_text-eq s (bool b) h = cc
is_text-eq s (num n) h = cc
is_text-eq s (arr xs) h = cc
is_text-eq s (obj fs) h = cc

object-eq-ok : (name : Text) (v : Value) (fs : Fields) → assert_object name v ≡ ok fs → v ≡ obj fs
object-eq-ok name (obj gs) fs h = ap obj (ok_inj h)
object-eq-ok name undef fs h = cc
object-eq-ok name null fs h = cc
object-eq-ok name (bool b) fs h = cc
object-eq-ok name (num n) fs h = cc
object-eq-ok name (str s) fs h = cc
object-eq-ok name (arr xs) fs h = cc

reject_fields-All :
    (names : List Text) (fs : Fields) (context : Text)
    → reject_fields names fs context ≡ ok tt
    → All (λ name. has_key name fs ≡ false) names
unfolding reject_fields
reject_fields-All [] fs context h = tt
reject_fields-All (name ∷ names) fs context h =
    let (tests, rest) = guards->>-eq-ok _ (reject_fields names fs context) h in
    (tests.0, reject_fields-All names fs context rest)

field_of :
    (v : Value) (fs : Fields) (key : Text) (w : Value)
    → v ≡ obj fs
    → get_field key fs ≡ w
    → property key v ≡ w
field_of v fs key w e h = rw e h

tested-if_policy :
    (policy : Value) (tested : Result Text (Unit {0})) (falsy : Bool)
    → falsy ≡ false
    → if_policy policy tested falsy ≡ ok tt
    → tested ≡ ok tt
tested-if_policy policy tested true e h = cc
tested-if_policy policy tested false e h = h

payload_allowed-eq-ok :
    (policy : Value) (hpc payload : Text)
    → payload_allowed policy hpc payload ≡ ok tt
    → (r : Resolved) × (resolve_allowed_payload policy (str hpc) (str payload) ≡ ok r)
payload_allowed-eq-ok policy hpc payload h =
    let (r, is, last) =
      >>=-eq-ok (resolve_allowed_payload policy (str hpc) (str payload)) (λ r. ok tt) h in
    (r, is)

alias_field :
    (v : Value) (fs : Fields) (alias hpc : Text)
    → v ≡ obj fs
    → alias_of (get_field (lit "hostKeyAlias") fs) ≡ ok alias
    → not (text_eq alias hpc) ≡ false
    → alias_of (property (lit "hostKeyAlias") v) ≡ ok hpc
alias_field v fs alias hpc e h same =
    let is : alias ≡ hpc = (text_eq_iff alias hpc).0 (ground (arith, same)) in rw (e, ← is) h

module _ (parse_url : Text → Option Url) where
  -- The URL is one whose origin the policy lists.
  abbrev pub IsListed : Value → Text → Type 0
  IsListed policy s =
      (u : Url) × (parse_url s ≡ some u)
      × (listed (property (lit "allowedRelayOrigins") policy) u.origin ≡ true)

  parsed-eq-ok :
      (found : Option Url) (u : Url) → or_throw (lit "Invalid URL") found ≡ ok u → found ≡ some u
  parsed-eq-ok none u h = cc
  parsed-eq-ok (some v) u h = ap some (ok_inj h)

  policy_allows_relay_url-IsListed :
      (dev : Bool) (policy : Value) (s : Text)
      → policy_allows_relay_url parse_url dev policy s ≡ ok tt
      → is_text (lit "slaif.hpcPolicy") (property (lit "type") policy) ≡ true
      → IsListed policy s
  unfolding policy_allows_relay_url
  policy_allows_relay_url-IsListed dev policy s h signed =
      let (u, is, rest) =
        >>=-eq-ok (or_throw (lit "Invalid URL") (parse_url s))
          (λ u.
            relay_of_policy parse_url dev policy u.origin
              (is_text (lit "slaif.hpcPolicy") (property (lit "type") policy)))
          h in
      let (tests, last) = guards->>-eq-ok _ _ (rw signed at rest) in
      (u, parsed-eq-ok (parse_url s) u is, ground (arith, tests.0))

  module _ (parse_date : Text → Option ℤ) (to_iso : ℤ → Text) where
    -- A descriptor that is accepted under a signed policy is for the session, the host and the payload
    -- of the pending launch; it has no field that names a target or a command; the policy allows the
    -- payload at the host, and the host has the alias; and the origin of the relay is one that the
    -- policy lists.
    pub validate_session_descriptor-IsListed :
        (now later : ℤ) (dev : Bool) (policy descriptor pending host : Value) (d : Descriptor)
        → validate_session_descriptor parse_url parse_date to_iso now later dev policy descriptor
            pending host
          ≡ ok d
        → is_falsy policy ≡ false
        → is_text (lit "slaif.hpcPolicy") (property (lit "type") policy) ≡ true
        → (property (lit "sessionId") pending ≡ str d.session_id)
          × (property (lit "hpc") pending ≡ str d.hpc)
          × (property (lit "payloadId") pending ≡ str d.payload_id)
          × ((fs : Fields) × (descriptor ≡ obj fs)
              × All (λ name. has_key name fs ≡ false) forbidden_ssh_target_fields)
          × ((r : Resolved) × (resolve_allowed_payload policy (str d.hpc) (str d.payload_id)
                ≡ ok r))
          × (alias_of (property (lit "hostKeyAlias") host) ≡ ok d.hpc)
          × IsListed policy d.relay_url
    unfolding validate_session_descriptor
    validate_session_descriptor-IsListed now later dev policy descriptor pending host d h there
          signed =
        let (fs, is, h1) = >>=-eq-ok (assert_object (lit "session descriptor") descriptor) _ h in
        let (launch, is_launch, h2) =
          >>=-eq-ok (assert_object (lit "pending launch") pending) _ h1 in
        let (hs, is_host, h3) = >>=-eq-ok (assert_object (lit "policy host") host) _ h2 in
        let (u, clean, h4) =
          >>=-eq-ok (reject_forbidden_fields fs (lit "session descriptor")) _ h3 in
        let (typed, h5) = guards->>-eq-ok _ _ h4 in
        let (session, is_session, h6) =
          >>=-eq-ok (session_id_of (get_field (lit "sessionId") fs)) _ h5 in
        let ((same_session, m1), h7) = guards->>-eq-ok _ _ h6 in
        let (hpc, is_hpc, h8) = >>=-eq-ok (alias_of (get_field (lit "hpc") fs)) _ h7 in
        let ((same_hpc, m2), h9) = guards->>-eq-ok _ _ h8 in
        let (payload, is_payload, h10) =
          >>=-eq-ok (Catalog.validate_payload_id (get_field (lit "payloadId") fs)) _ h9 in
        let ((same_payload, m3), h11) = guards->>-eq-ok _ _ h10 in
        let (v, allowed, h12) =
          >>=-eq-ok (if_policy policy (payload_allowed policy hpc payload) (is_falsy policy)) _
            h11 in
        let (alias, is_alias, h13) =
          >>=-eq-ok (alias_of (get_field (lit "hostKeyAlias") hs)) _ h12 in
        let ((same_alias, m4), h14) = guards->>-eq-ok _ _ h13 in
        let (url, is_url, h15) =
          >>=-eq-ok (validate_relay_url parse_url dev (get_field (lit "relayUrl") fs)) _ h14 in
        let (w, relay, h16) =
          >>=-eq-ok
            (if_policy policy (policy_allows_relay_url parse_url dev policy url) (is_falsy policy))
            _ h15 in
        let (token, is_token, h17) = >>=-eq-ok (validate_opaque_token _ _) _ h16 in
        let (until, is_until, h18) =
          >>=-eq-ok (expiry_of parse_url parse_date to_iso _ _ _) _ h17 in
        let (job, is_job, h19) = >>=-eq-ok (validate_opaque_token _ _) _ h18 in
        let (job_until, is_job_until, h20) =
          >>=-eq-ok (expiry_of parse_url parse_date to_iso _ _ _) _ h19 in
        let (hint, is_hint, h21) = >>=-eq-ok (sanitize_username_hint _) _ h20 in
        rw (← ok_inj h21) (
          field_of pending launch (lit "sessionId") (str session)
              (object-eq-ok (lit "pending launch") pending launch is_launch)
              (is_text-eq session (get_field (lit "sessionId") launch) same_session),
          field_of pending launch (lit "hpc") (str hpc)
              (object-eq-ok (lit "pending launch") pending launch is_launch)
              (is_text-eq hpc (get_field (lit "hpc") launch) same_hpc),
          field_of pending launch (lit "payloadId") (str payload)
              (object-eq-ok (lit "pending launch") pending launch is_launch)
              (is_text-eq payload (get_field (lit "payloadId") launch) same_payload),
          (
            fs,
            object-eq-ok (lit "session descriptor") descriptor fs is,
            reject_fields-All forbidden_ssh_target_fields fs (lit "session descriptor") clean,
          ),
          payload_allowed-eq-ok policy hpc payload (
              tested-if_policy policy (payload_allowed policy hpc payload) (is_falsy policy) there
                allowed),
          alias_field host hs alias hpc (object-eq-ok (lit "policy host") host hs is_host) is_alias
              same_alias,
          policy_allows_relay_url-IsListed dev policy url
              (tested-if_policy policy (policy_allows_relay_url parse_url dev policy url)
                (is_falsy policy) there relay)
              signed,
        )
