-- ===== src/Store/Windows.antt =====
-- The window in which a recorded claim may be read again.
use authstunt.Prelude.{ℕ, ◌+◌, ◌≡◌, ◌≢◌, ◌≤◌, ◌<◌, true, ltb, arith}
use authstunt.Store.Models.{Claim}
use authstunt.Store.Monad.{Store, Outcome, ok, err}
use authstunt.Store.Keeps.{Keeps-new_id}
use authstunt.Store.Claims.{NewClaim, claim_expiry, new_claim, record_claim}
use authstunt.Store.Triple.{
  Triple, Anything, Triple-pure, Triple-guard, Triple-bind, Triple-then, Triple-keeps, Returned,
  returned,
}

pub record IsWindow (n : NewClaim) (c : Claim) : Type 0 where
  pub opens : c.claimed_at < c.expires_at
  pub lasts : c.expires_at ≤ c.claimed_at + n.ttl
  pub within_grant : n.not_after ≢ 0 → c.expires_at ≤ n.not_after

claim_expiry-IsWindow :
    (n : NewClaim) (id at : ℕ) → ltb at (claim_expiry n at) ≡ true → IsWindow n (new_claim n id at)
unfolding claim_expiry new_claim
claim_expiry-IsWindow n id at h = record {
  opens = ground arith;
  lasts = ground arith;
  within_grant = λ given. ground arith;
}

record_claim-Triple : (n : NewClaim) → Triple Anything (record_claim n) (λ c _. IsWindow n c)
unfolding record_claim
record_claim-Triple n = Triple-then _ _ λ _. Triple-then _ _ λ _. Triple-then _ _ λ at.
    Triple-bind _ _ (Triple-guard _ _) λ _.
      Triple-bind _ _ (Triple-keeps _ Keeps-new_id (λ _ db p. p)) λ id.
        Triple-bind {R = λ _ _. ltb at (claim_expiry n at) ≡ true} _ _
          (record { at = λ s p. stays _ p.0 })
          λ _. Triple-pure _ (λ db h. claim_expiry-IsWindow n id at h)
  where
    stays : {X : Type 0} (o : Outcome (Unit {0})) → X → Returned (λ _ _. X) o
    stays (ok a s) x = x
    stays (err e s) x = tt

-- A claim that is recorded expires after the instant at which it was made, no later than its lifetime
-- allows, and no later than the end of the grant, if one is given.
pub record_claim-IsWindow :
    (n : NewClaim) (s t : Store) (c : Claim) → record_claim n s ≡ ok c t → IsWindow n c
record_claim-IsWindow n s t c = returned _ s t c (record_claim-Triple n) tt
