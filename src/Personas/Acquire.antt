-- ===== src/Personas/Acquire.antt =====
-- Leasing an identity to a run (internal/personas/lease.go: `Acquire`, `Release`, `Sweep`).
-- `Acquire` reserves in a transaction, seeds outside every transaction, and settles in another.
use authstunt.Prelude.{
  ℕ, ◌+◌, Text, Bool, true, false, Option, none, some, List, [], ◌∷◌, ◌&&◌, if◌then◌else◌,
}
use authstunt.Ledger.Events.{lease_acquired, lease_refused, lease_released, seed_settled}
use authstunt.Store.Models.{Run, RunState, Identity, Lease, Mode, SeedState, Refusal, is_pooled}
use authstunt.Store.Monad.{
  M, Error, invalid, identity_held, lease_not_held, pooled_policy_missing, no_identity_available,
  seed_failed, ◌>>=◌, ◌>>◌, pure, fail, guard, wall_now, with_tx, try,
}
use authstunt.Store.Trail.{Meta, tx_write, write}
use authstunt.Store.Identities.{
  tx_create_identity, identity_by_id, list_pooled_identities, set_cooldown,
}
use authstunt.Store.Leases.{
  cooling, acquire_lease, settle_seed, tx_release_lease, lease_by_id, expire_leases,
}
use authstunt.Store.Runs.{create_run as store_create_run, end_run as store_end_run, expire_runs}
use authstunt.Personas.Config.{Service, Seeder, SeedRequest, SeedAnswer, answered, seed_error}
use authstunt.Personas.Address.{mint_address}

abbrev pub Reserved : Type 0
Reserved = Lease × Identity

pub record Grant : Type 0 where
  pub lease_id : ℕ
  pub identity_id : ℕ
  pub addr : Text
  pub role : Text
  pub mode : Mode
  pub seed_state : SeedState
  pub expires_at : ℕ

-- What seeding came to: the settled state, the fingerprint, and the error's text if it failed.
pub record Seeded : Type 0 where
  pub status : SeedState
  pub fingerprint : Text
  pub failure : Option Text

-- "personas: seeder returned status" stands for the text of the error.
abbrev pub bad_status : Text
bad_status = b's' ∷ b't' ∷ b'a' ∷ b't' ∷ b'u' ∷ b's' ∷ []

unfoldable pub interpret : SeedAnswer → Seeded
interpret (seed_error e) = record { status = SeedState.failed; fingerprint = []; failure = some e }
interpret (answered SeedState.seeded f) = record {
  status = SeedState.seeded;
  fingerprint = f;
  failure = none;
}
interpret (answered SeedState.skipped f) = record {
  status = SeedState.skipped;
  fingerprint = f;
  failure = none;
}
interpret (answered SeedState.pending f) = record {
  status = SeedState.failed;
  fingerprint = [];
  failure = some bad_status;
}
interpret (answered SeedState.failed f) = record {
  status = SeedState.failed;
  fingerprint = [];
  failure = some bad_status;
}

abbrev pub not_seeded : Seeded
not_seeded = record { status = SeedState.skipped; fingerprint = []; failure = none }

unfoldable pub seed_request : ℕ → Lease → Identity → SeedRequest
seed_request run l i = record {
  run_id = run;
  lease_id = l.id;
  identity_id = i.id;
  addr = i.addr;
  role = l.role;
  mode = i.mode;
  idempotency_key = l.id;
}

-- `seed`: skipped without a seeder.
unfoldable pub seed_with : Option Seeder → SeedRequest → M Seeded
seed_with none req = pure not_seeded
seed_with (some seeder) req = do answer ← seeder req; pure (interpret answer)

unfoldable pub reason_of : Option Text → Text
reason_of none = []
reason_of (some e) = e

unfoldable pub is_failure : SeedState → Bool
is_failure SeedState.failed = true
is_failure _ = false

unfoldable pub when : Bool → M (Unit {0}) → M (Unit {0})
when true m = m
when false m = pure tt

unfoldable pub no_failure : Option Text → Bool
no_failure none = true
no_failure (some e) = false

module _ (v : Service) where
  unfoldable pub meta : ℕ → Identity → Meta
  meta run i = record { project_id = v.project_id; run_id = run; persona_id = i.persona_id }

  unfoldable pub create_run : M (Run × Text)
  create_run = store_create_run (record { project_id = v.project_id; ttl = v.run_ttl })

  unfoldable pub end_run : ℕ → RunState → Text → M (Unit {0})
  end_run run state reason = store_end_run run state reason

  unfoldable pub audit_acquire : ℕ → Lease → Identity → M (Unit {0})
  audit_acquire run l i = tx_write (meta run i) (lease_acquired l.id i.id l.role i.mode i.addr)

  unfoldable pub lease_for : ℕ → Text → Identity → M Lease
  lease_for run role i = do
    lease ←
        acquire_lease (record { run_id = run; identity_id = i.id; role = role; ttl = v.lease_ttl })
    audit_acquire run lease i
    pure lease

  unfoldable pub reserve_minted : ℕ → Text → Text → M Reserved
  reserve_minted run role addr = do
    identity ← tx_create_identity (record {
      project_id = v.project_id;
      persona_id = 0;
      addr = addr;
      role = role;
      mode = Mode.ephemeral;
    })
    lease ← lease_for run role identity
    pure (lease, identity)

  unfoldable pub reserve_ephemeral : ℕ → Text → M Reserved
  reserve_ephemeral run role = do
    addr ← mint_address v.domain role
    with_tx (reserve_minted run role addr)

  -- Losing the race for an identity is no error: the next candidate is tried.
  unfoldable pub next_if_held : M Reserved → Error → M Reserved
  next_if_held next identity_held = next
  next_if_held next e = fail e

  unfoldable pub try_candidate : ℕ → Text → Identity → M Reserved → M Reserved
  try_candidate run role i next =
      try (with_tx (lease_for run role i)) (next_if_held next) (λ l. pure (l, i))

  unfoldable pub try_each : ℕ → Text → ℕ → List Identity → M Reserved
  try_each run role at [] = fail no_identity_available
  try_each run role at (i ∷ is) =
      let next = try_each run role at is in
      if cooling at i then next else try_candidate run role i next

  unfoldable pub audit_refusal : ℕ → Text → M (Unit {0})
  audit_refusal run role =
      write (record { project_id = v.project_id; run_id = run; persona_id = 0 })
        (lease_refused role Mode.pooled Refusal.pooled_policy_missing)

  unfoldable pub reserve_pooled : Option ℕ → ℕ → Text → M Reserved
  reserve_pooled none run role = do audit_refusal run role; fail pooled_policy_missing
  reserve_pooled (some bound) run role = do
    candidates ← list_pooled_identities v.project_id role
    at ← wall_now
    try_each run role at candidates

  unfoldable pub reserve : Mode → ℕ → Text → M Reserved
  reserve Mode.ephemeral run role = reserve_ephemeral run role
  reserve Mode.pooled run role = reserve_pooled v.pooled run role
  reserve Mode.unknown run role = fail invalid

  unfoldable pub start_cooldown : Identity → M (Unit {0})
  start_cooldown i = do at ← wall_now; set_cooldown i.id (at + v.cooldown)

  unfoldable pub record_seed : ℕ → Lease → Identity → Seeded → M (Unit {0})
  record_seed run l i r = do
    when (is_failure r.status && is_pooled i.mode) (start_cooldown i)
    tx_write (meta run i)
        (seed_settled l.id i.id r.status i.addr r.fingerprint (reason_of r.failure))

  -- A lease that lost its hold while the seed was in flight has nothing left to settle.
  unfoldable pub unless_lost : Error → M (Unit {0})
  unless_lost lease_not_held = pure tt
  unless_lost e = fail e

  unfoldable pub settle : ℕ → Lease → Identity → Seeded → M (Unit {0})
  settle run l i r =
      with_tx
        (try (settle_seed l.id r.status r.fingerprint) unless_lost (λ _. record_seed run l i r))

  unfoldable pub grant : Lease → Identity → Seeded → Grant
  grant l i r = record {
    lease_id = l.id;
    identity_id = i.id;
    addr = i.addr;
    role = l.role;
    mode = i.mode;
    seed_state = r.status;
    expires_at = l.expires_at;
  }

  unfoldable pub acquire : ℕ → Text → Mode → M Grant
  acquire run role mode = do
    reserved ← reserve mode run role
    result ← seed_with v.seeder (seed_request run reserved.0 reserved.1)
    settle run reserved.0 reserved.1 result
    guard (no_failure result.failure) seed_failed
    pure (grant reserved.0 reserved.1 result)

  unfoldable pub release_body : ℕ → ℕ → Identity → M (Unit {0})
  release_body run lease i = do
    tx_release_lease lease
    when (is_pooled i.mode) (start_cooldown i)
    tx_write (meta run i) (lease_released lease i.id i.addr)

  unfoldable pub release : ℕ → ℕ → M (Unit {0})
  release run lease = do
    l ← lease_by_id lease
    i ← identity_by_id l.identity_id
    with_tx (release_body run lease i)

  unfoldable pub sweep : M (ℕ × ℕ)
  sweep = do runs ← expire_runs; leases ← expire_leases; pure (runs, leases)
