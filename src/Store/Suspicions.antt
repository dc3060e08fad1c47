-- ===== src/Store/Suspicions.antt =====
-- Which bindings a claim may trust.
use authstunt.Prelude.{ℕ, ◌≡◌, ◌≢◌, ◌≤◌, ◌↔◌, true, false, none, arith}
use authstunt.Store.Models.{Suspect, is_pooled}
use authstunt.Store.Bindings.{LeaseOwner, truncate_second, is_released, suspicion}

-- A binding can be trusted: the lease was not taken in a cooldown and is not released, and for a
-- pooled identity the message is dated, no earlier than the second in which the lease began.
pub record IsTrusted (o : LeaseOwner) (origin : ℕ) : Type 0 where
  pub no_cooldown : o.lease.in_cooldown ≡ false
  pub not_released : o.lease.released_at ≡ none
  pub dated : is_pooled o.mode ≡ true → origin ≢ 0
  pub in_time : is_pooled o.mode ≡ true → truncate_second o.lease.acquired_at ≤ origin

suspicion-clean :
    (o : LeaseOwner) (origin : ℕ) → IsTrusted o origin → suspicion o origin ≡ Suspect.clean
unfolding suspicion is_released
suspicion-clean o origin t = grind arith

clean-IsTrusted :
    (o : LeaseOwner) (origin : ℕ) → suspicion o origin ≡ Suspect.clean → IsTrusted o origin
unfolding suspicion is_released
clean-IsTrusted o origin h = record {
  no_cooldown = ground arith;
  not_released = ground arith;
  dated = λ p. ground arith;
  in_time = λ p. ground arith;
}

-- A binding is recorded as clean exactly when it can be trusted.
pub suspicion-IsTrusted :
    (o : LeaseOwner) (origin : ℕ) → (suspicion o origin ≡ Suspect.clean) ↔ IsTrusted o origin
suspicion-IsTrusted o origin = (clean-IsTrusted o origin, suspicion-clean o origin)
