-- ===== src/Policy/Rollback.antt =====
-- The sequence numbers of the policies that session.js remembers.
use slaif_connect.Base.{
  ◌≡◌, inl, inr, refl, Bool, true, false, some, List, [], ◌∷◌, Text, arith, All, ◌≤◌, text_eq,
  text_eq_iff, ◌==◌, ok, guards_iff, Result-cases,
}
use slaif_connect.Policy.{
  Accepted, evaluate_policy_rollback, remember_production_policy, after, remember_all,
}

-- The policy is no older: its sequence number is no smaller, and where the numbers agree, so do the
-- fingerprints.
abbrev pub IsNoOlder : Accepted → Accepted → Type 0
IsNoOlder old new =
    (old.policy_id ≡ new.policy_id)
    × (old.sequence ≤ new.sequence)
    × (old.sequence ≡ new.sequence → old.fingerprint ≡ new.fingerprint)

IsNoOlder-trans : (a b c : Accepted) → IsNoOlder a b → IsNoOlder b c → IsNoOlder a c
IsNoOlder-trans a b c (same, below, prints) (same2, below2, prints2) = (
  cc,
  omega arith,
  λ e.
      let ab : a.sequence ≡ b.sequence = omega arith in
      let bc : b.sequence ≡ c.sequence = omega arith in cc (prints ab, prints2 bc),
)

evaluate_policy_rollback-IsNoOlder :
    (policy previous : Accepted)
    → text_eq previous.policy_id policy.policy_id ≡ true
    → text_eq previous.fingerprint [] ≡ false
    → evaluate_policy_rollback policy (some previous) ≡ ok tt
    → IsNoOlder previous policy
unfolding evaluate_policy_rollback
evaluate_policy_rollback-IsNoOlder policy previous same printed h =
    let passed = rw same at h in
    let (younger, (reused, more)) = (guards_iff _).0 passed in
    (
      (text_eq_iff previous.policy_id policy.policy_id).0 same,
      ground (arith, younger),
      λ e.
          let reuse : (previous.sequence == policy.sequence) ≡ true = ground arith in
          let print : text_eq previous.fingerprint policy.fingerprint ≡ true =
            ground (arith, reused, reuse, printed) in
          (text_eq_iff previous.fingerprint policy.fingerprint).0 print,
    )

-- A session with a policy of this id, which has a fingerprint
abbrev pub IsOf : Text → Bool × Accepted → Type 0
IsOf id (dev, policy) = (policy.policy_id ≡ id) × (text_eq policy.fingerprint [] ≡ false)

-- What is stored after one session, and that it has a fingerprint.
after-IsNoOlder :
    (id : Text) (dev : Bool) (policy old : Accepted)
    → IsOf id (false, old)
    → IsOf id (dev, policy)
    → (new : Accepted) × (after (some old) (remember_production_policy dev policy (some old))
        ≡ some new)
      × IsOf id (false, new)
      × IsNoOlder old new
unfolding remember_production_policy
after-IsNoOlder id true policy old is_old is = (old, refl, is_old, (refl, omega arith, λ e. refl))
after-IsNoOlder id false policy old is_old is =
    elim (Result-cases (evaluate_policy_rollback policy (some old))) [
      | inl (u, passed) ↦
          let same : old.policy_id ≡ policy.policy_id = cc in
          let same_test = (text_eq_iff old.policy_id policy.policy_id).1 same in
          (
            policy,
            rw passed refl,
            is,
            evaluate_policy_rollback-IsNoOlder policy old same_test is_old.1 passed,
          )
      | inr (message, refused) ↦ (old, rw refused refl, is_old, (refl, omega arith, λ e. refl))
    ]

-- Where the policy that is stored and those of the sessions that follow have one id, and each has a
-- fingerprint, the policy that is stored in the end is no older than the one that was stored at the
-- start: its sequence number is no smaller, and where the numbers agree, so do the fingerprints.
pub remember_all-IsNoOlder :
    (id : Text) (runs : List (Bool × Accepted)) (old : Accepted)
    → IsOf id (false, old)
    → All (IsOf id) runs
    → (new : Accepted) × (remember_all runs (some old) ≡ some new) × IsNoOlder old new
unfolding remember_all
remember_all-IsNoOlder id [] old is_old are = (old, refl, (refl, omega arith, λ e. refl))
remember_all-IsNoOlder id ((dev, policy) ∷ rest) old is_old (is, are) =
    let (next, stored, is_next, no_older) = after-IsNoOlder id dev policy old is_old is in
    let (new, in_the_end, later) = remember_all-IsNoOlder id rest next is_next are in
    (new, rw stored in_the_end, IsNoOlder-trans old next new no_older later)
