-- ===== src/Personas/Config.antt =====
-- The configuration of the lease service (internal/personas/lease.go: `Config`, `New`,
-- `resolveCooldown`). A duration is a signed number of nanoseconds.
use authstunt.Prelude.{
  ℕ, ◌*◌, max, Text, Bool, true, false, Option, none, some, List, [], ◌∷◌, ltb, leb, ◌==◌,
  if◌then◌else◌,
}
use authstunt.Store.Models.{SeedState, Mode}
use authstunt.Store.Monad.{M}
use authstunt.Store.Bindings.{second}
use authstunt.Store.Address.{trim_space, canonical_domain, cut_wildcard}

-- `negsuc n` is -(n + 1).
pub data ℤ : Type 0 where
  pos : ℕ → ℤ
  negsuc : ℕ → ℤ

abbrev pub default_run_ttl : ℕ
default_run_ttl = 1800 * second

abbrev pub default_lease_ttl : ℕ
default_lease_ttl = 1800 * second

abbrev pub default_pool_cooldown : ℕ
default_pool_cooldown = 60 * second

abbrev pub default_claim_ttl : ℕ
default_claim_ttl = 120 * second

abbrev pub min_delivery_latency : ℕ
min_delivery_latency = second

pub record SeedRequest : Type 0 where
  pub run_id : ℕ
  pub lease_id : ℕ
  pub identity_id : ℕ
  pub addr : Text
  pub role : Text
  pub mode : Mode
  pub idempotency_key : ℕ

-- What a seeder returns: a status with a fingerprint, or an error with its text.
pub data SeedAnswer : Type 0 where
  answered : SeedState → Text → SeedAnswer
  seed_error : Text → SeedAnswer

-- The adapter is not under the source. While it runs the rest of the process may use the store, so
-- it is a call.
abbrev pub Seeder : Type 0
Seeder = SeedRequest → M SeedAnswer

-- The bus that a claim waits on: absent, or running, or stopped.
pub data Wiring : Type 0 where
  absent running stopped : Wiring

pub record Config : Type 0 where
  pub has_store : Bool
  pub project_id : ℕ
  pub allowlist : List Text
  pub seeder : Option Seeder
  pub run_ttl : ℤ
  pub lease_ttl : ℤ
  pub claim_ttl : ℤ
  pub pooled : Option ℤ
  pub pool_cooldown : ℤ
  pub bus : Wiring

-- `pooled` is the declared delivery bound.
pub record Service : Type 0 where
  pub project_id : ℕ
  pub domain : Text
  pub seeder : Option Seeder
  pub bus : Wiring
  pub pooled : Option ℕ
  pub run_ttl : ℕ
  pub lease_ttl : ℕ
  pub cooldown : ℕ
  pub claim_ttl : ℕ

pub data ConfigError : Type 0 where
  no_store no_project no_allowlist unusable_domain claim_outlives_lease negative_cooldown
        bound_too_small cooldown_below_floor :
      ConfigError

pub data Checked {ℓ} (A : Type ℓ) : Type ℓ where
  valid : A → Checked A
  refused : ConfigError → Checked A

infixl 5 ◌>>=◌ ◌>>◌
abbrev pub ◌>>=◌ : {A B : Type 0} → Checked A → (A → Checked B) → Checked B
valid a >>= f = f a
refused e >>= f = refused e

abbrev pub ◌>>◌ : {B : Type 0} → Checked (Unit {0}) → Checked B → Checked B
m >> k = m >>= λ _. k

abbrev pub refuse : Bool → ConfigError → Checked (Unit {0})
refuse true e = refused e
refuse false e = valid tt

-- A duration that is not positive is replaced by the default.
unfoldable pub or_default : ℤ → ℕ → ℕ
or_default (pos n) d = if n == 0 then d else n
or_default (negsuc n) d = d

unfoldable pub policy_bound : Option ℤ → Checked (Option ℕ)
policy_bound none = valid none
policy_bound (some (negsuc n)) = refused bound_too_small
policy_bound (some (pos n)) =
    if ltb n min_delivery_latency then refused bound_too_small else valid (some n)

unfoldable pub cooldown_for : Option ℕ → ℕ → Checked ℕ
cooldown_for none c = valid (if c == 0 then default_pool_cooldown else c)
cooldown_for (some floor) c =
    if c == 0
    then valid (max default_pool_cooldown floor)
    else if ltb c floor
    then refused cooldown_below_floor
    else valid c

unfoldable pub resolve_cooldown : Option ℤ → ℤ → Checked (Option ℕ × ℕ)
unfolding policy_bound cooldown_for
resolve_cooldown pooled (negsuc n) = refused negative_cooldown
resolve_cooldown pooled (pos c) = do
  bound ← policy_bound pooled
  cooldown ← cooldown_for bound c
  valid (bound, cooldown)

unfoldable pub first_domain : (Text → Option Text) → List Text → Checked Text
first_domain to_ascii [] = refused no_allowlist
first_domain to_ascii (p ∷ ps) = elim (canonical_domain to_ascii (cut_wildcard (trim_space p)).0) [
  | none ↦ refused unusable_domain
  | some domain ↦ valid domain
]

-- `New`.
unfoldable pub new : (Text → Option Text) → Config → Checked Service
unfolding or_default resolve_cooldown first_domain
new to_ascii cfg = do
  refuse (if cfg.has_store then false else true) no_store
  refuse (cfg.project_id == 0) no_project
  domain ← first_domain to_ascii cfg.allowlist
  let run_ttl = or_default cfg.run_ttl default_run_ttl
  let lease_ttl = or_default cfg.lease_ttl default_lease_ttl
  let claim_ttl = or_default cfg.claim_ttl default_claim_ttl
  refuse (leb lease_ttl claim_ttl) claim_outlives_lease
  settled ← resolve_cooldown cfg.pooled cfg.pool_cooldown
  valid (record {
    project_id = cfg.project_id;
    domain = domain;
    seeder = cfg.seeder;
    bus = cfg.bus;
    pooled = settled.0;
    run_ttl = run_ttl;
    lease_ttl = lease_ttl;
    cooldown = settled.1;
    claim_ttl = claim_ttl;
  })

-- `Capabilities`: what the service was wired with.
pub record Capabilities : Type 0 where
  pub long_poll : Bool
  pub pooled : Bool
  pub seeder : Bool

unfoldable pub is_wired : Wiring → Bool
is_wired absent = false
is_wired running = true
is_wired stopped = true

unfoldable pub is_some {ℓ} : {A : Type ℓ} → Option A → Bool
is_some none = false
is_some (some a) = true

unfoldable pub capabilities : Service → Capabilities
unfolding is_wired is_some
capabilities s = record {
  long_poll = is_wired s.bus;
  pooled = is_some s.pooled;
  seeder = is_some s.seeder;
}
