-- ===== src/Personas/Invariant.antt =====
-- The invariant of the tables and internal/personas/lease.go. The seeder may use the store.
use authstunt.Prelude.{ℕ, Text, Bool, true, false, Option, none, some, List, [], ◌∷◌}
use authstunt.Store.Models.{RunState, Identity, Lease, Mode}
use authstunt.Store.Monad.{M, Error}
use authstunt.Store.Leases.{lease_by_id}
use authstunt.Store.Runs.{run_by_id}
use authstunt.Store.Identities.{identity_by_id, list_pooled_identities}
use authstunt.Store.Claims.{CandidateFilter, claim_candidates, claim_by_key}
use authstunt.Store.Sound.{Sound}
use authstunt.Store.Keeps.{
  Keeps, keeps_rules, Keeps-pure, Keeps-bind, Keeps-with_tx, Keeps-if, Keeps-try, Keeps-fail,
}
use authstunt.Store.Exclusive.{
  acquire_lease-Sound, settle_seed-Sound, tx_release_lease-Sound, expire_leases-Sound,
}
use authstunt.Store.Writes.{
  tx_write-Sound, write-Sound, create_run-Sound, end_run-Sound, expire_runs-Sound,
  tx_create_identity-Sound, set_cooldown-Sound,
}
use authstunt.Personas.Config.{Service, Seeder, SeedRequest}
use authstunt.Personas.Address.{mint_address}
use authstunt.Personas.Acquire.{
  Reserved, Seeded, seed_with, when, create_run, end_run, audit_acquire, lease_for, reserve_minted,
  reserve_ephemeral, next_if_held, try_candidate, try_each, audit_refusal, reserve_pooled, reserve,
  start_cooldown, record_seed, unless_lost, settle, acquire, release_body, release, sweep,
}

-- Reads.
pub lease_by_id-Keeps : (id : ℕ) → Keeps Sound (lease_by_id id)
unfolding lease_by_id
lease_by_id-Keeps id = search keeps_rules depth 6

pub identity_by_id-Keeps : (id : ℕ) → Keeps Sound (identity_by_id id)
unfolding identity_by_id
identity_by_id-Keeps id = search keeps_rules depth 6

pub run_by_id-Keeps : (id : ℕ) → Keeps Sound (run_by_id id)
unfolding run_by_id
run_by_id-Keeps id = search keeps_rules depth 6

pub claim_candidates-Keeps : (f : CandidateFilter) → Keeps Sound (claim_candidates f)
unfolding claim_candidates
claim_candidates-Keeps f = search keeps_rules depth 8

pub claim_by_key-Keeps : (lease : ℕ) (key : Text) → Keeps Sound (claim_by_key lease key)
unfolding claim_by_key
claim_by_key-Keeps lease key = search keeps_rules depth 6

pub list_pooled_identities-Keeps :
    (project : ℕ) (role : Text) → Keeps Sound (list_pooled_identities project role)
unfolding list_pooled_identities
list_pooled_identities-Keeps project role = search keeps_rules

pub mint_address-Keeps : (domain role : Text) → Keeps Sound (mint_address domain role)
unfolding mint_address
mint_address-Keeps domain role = search keeps_rules depth 10

when-Keeps : (b : Bool) (m : M (Unit {0})) → Keeps Sound m → Keeps Sound (when b m)
unfolding when
when-Keeps true m h = h
when-Keeps false m h = Keeps-pure tt

pub ruleset reads = (
  lease_by_id-Keeps, identity_by_id-Keeps, run_by_id-Keeps, claim_candidates-Keeps,
  claim_by_key-Keeps, list_pooled_identities-Keeps, mint_address-Keeps,
)

-- What a seeder, called at any time, does to the store.
abbrev pub SeederKeeps : Option Seeder → Type 0
SeederKeeps none = Unit {0}
SeederKeeps (some seeder) = (req : SeedRequest) → Keeps Sound (seeder req)

seed_with-Keeps :
    (s : Option Seeder) (req : SeedRequest) → SeederKeeps s → Keeps Sound (seed_with s req)
unfolding seed_with
seed_with-Keeps none req h = Keeps-pure _
seed_with-Keeps (some seeder) req h = Keeps-bind _ _ (h req) (λ a. Keeps-pure _)

module _ (v : Service) where
  pub create_run-Keeps : Keeps Sound (create_run v)
  unfolding create_run
  create_run-Keeps = create_run-Sound _

  pub end_run-Keeps :
      (run : ℕ) (state : RunState) (reason : Text) → Keeps Sound (end_run v run state reason)
  unfolding end_run
  end_run-Keeps run state reason = end_run-Sound run state reason

  lease_for-Keeps : (run : ℕ) (role : Text) (i : Identity) → Keeps Sound (lease_for v run role i)
  unfolding lease_for audit_acquire
  lease_for-Keeps run role i = search (keeps_rules, acquire_lease-Sound, tx_write-Sound) depth 8

  reserve_minted-Keeps : (run : ℕ) (role addr : Text) → Keeps Sound (reserve_minted v run role addr)
  unfolding reserve_minted
  reserve_minted-Keeps run role addr =
      search (keeps_rules, tx_create_identity-Sound, lease_for-Keeps) depth 8

  reserve_ephemeral-Keeps : (run : ℕ) (role : Text) → Keeps Sound (reserve_ephemeral v run role)
  unfolding reserve_ephemeral
  reserve_ephemeral-Keeps run role =
      search (keeps_rules, mint_address-Keeps, reserve_minted-Keeps) depth 8

  next_if_held-Keeps :
      (next : M Reserved) → Keeps Sound next → (e : Error) → Keeps Sound (next_if_held v next e)
  unfolding next_if_held
  next_if_held-Keeps next h Error.identity_held = h
  next_if_held-Keeps next h e = Keeps-fail _

  try_each-Keeps :
      (run : ℕ) (role : Text) (at : ℕ) (is : List Identity)
      → Keeps Sound (try_each v run role at is)
  unfolding try_each try_candidate
  try_each-Keeps run role at [] = Keeps-fail _
  try_each-Keeps run role at (i ∷ is) =
      let next = try_each-Keeps run role at is in
      Keeps-if _ _ _ next (
        Keeps-try _ _ _ (Keeps-with_tx _ (lease_for-Keeps run role i)) (next_if_held-Keeps _ next)
          (λ l. Keeps-pure _))

  reserve_pooled-Keeps :
      (bound : Option ℕ) (run : ℕ) (role : Text) → Keeps Sound (reserve_pooled v bound run role)
  unfolding reserve_pooled audit_refusal
  reserve_pooled-Keeps none run role = search (keeps_rules, write-Sound) depth 6
  reserve_pooled-Keeps (some bound) run role =
      search (keeps_rules, list_pooled_identities-Keeps, try_each-Keeps) depth 8

  reserve-Keeps : (mode : Mode) (run : ℕ) (role : Text) → Keeps Sound (reserve v mode run role)
  unfolding reserve
  reserve-Keeps Mode.ephemeral run role = reserve_ephemeral-Keeps run role
  reserve-Keeps Mode.pooled run role = reserve_pooled-Keeps v.pooled run role
  reserve-Keeps Mode.unknown run role = Keeps-fail _

  start_cooldown-Keeps : (i : Identity) → Keeps Sound (start_cooldown v i)
  unfolding start_cooldown
  start_cooldown-Keeps i = search (keeps_rules, set_cooldown-Sound) depth 6

  record_seed-Keeps :
      (run : ℕ) (l : Lease) (i : Identity) (r : Seeded) → Keeps Sound (record_seed v run l i r)
  unfolding record_seed
  record_seed-Keeps run l i r =
      search (keeps_rules, when-Keeps, start_cooldown-Keeps, tx_write-Sound) depth 8

  unless_lost-Keeps : (e : Error) → Keeps Sound (unless_lost v e)
  unfolding unless_lost
  unless_lost-Keeps Error.lease_not_held = Keeps-pure _
  unless_lost-Keeps e = Keeps-fail _

  settle-Keeps :
      (run : ℕ) (l : Lease) (i : Identity) (r : Seeded) → Keeps Sound (settle v run l i r)
  unfolding settle
  settle-Keeps run l i r =
      search (keeps_rules, settle_seed-Sound, unless_lost-Keeps, record_seed-Keeps) depth 8

  pub acquire-Keeps :
      (run : ℕ) (role : Text) (mode : Mode)
      → SeederKeeps v.seeder
      → Keeps Sound (acquire v run role mode)
  unfolding acquire
  acquire-Keeps run role mode h = Keeps-bind _ _ (reserve-Keeps mode run role) λ r.
      Keeps-bind _ _ (seed_with-Keeps v.seeder _ h)
        λ result. search (keeps_rules, settle-Keeps) depth 8

  release_body-Keeps : (run lease : ℕ) (i : Identity) → Keeps Sound (release_body v run lease i)
  unfolding release_body
  release_body-Keeps run lease i =
      search (keeps_rules, tx_release_lease-Sound, when-Keeps, start_cooldown-Keeps, tx_write-Sound)
        depth 8

  pub release-Keeps : (run lease : ℕ) → Keeps Sound (release v run lease)
  unfolding release
  release-Keeps run lease = search (keeps_rules, reads, release_body-Keeps) depth 8

  pub sweep-Keeps : Keeps Sound (sweep v)
  unfolding sweep
  sweep-Keeps = search (keeps_rules, expire_runs-Sound, expire_leases-Sound) depth 8
