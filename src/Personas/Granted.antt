-- ===== src/Personas/Granted.antt =====
-- What `Acquire` grants.
use authstunt.Prelude.{
  ℕ, ◌≡◌, refl, ◌⊎◌, inl, inr, Text, true, Option, none, some, List, [], ◌∷◌, All, select, sort_by,
  select-All, sort_by-All, arith,
}
use authstunt.Store.Models.{Identity, Mode, SeedState, is_pooled}
use authstunt.Store.Monad.{Db, Store, ok, M, Error}
use authstunt.Store.Identities.{
  NewIdentity, created_before, tx_create_identity, is_candidate, list_pooled_identities,
}
use authstunt.Store.Leases.{NewLease, cooling, new_lease, acquire_lease}
use authstunt.Store.Triple.{
  Triple, Anything, Triple-pure, Triple-fail, Triple-query, Triple-if, Triple-with_tx, Triple-guard,
  Triple-bind, Triple-then, Triple-try, Triple-static, Triple-at, returned,
}
use authstunt.Personas.Config.{Service, Seeder, SeedRequest, SeedAnswer, answered, seed_error}
use authstunt.Personas.Seeding.{Stored, settle-Stored}
use authstunt.Personas.Acquire.{
  Reserved, Grant, Seeded, interpret, seed_with, no_failure, lease_for, reserve_minted,
  reserve_ephemeral, next_if_held, try_candidate, try_each, reserve_pooled, reserve, grant, acquire,
}

acquire_lease-role :
    (n : NewLease)
    → Triple Anything (acquire_lease n) (λ l _. (l.role ≡ n.role) × (l.identity_id ≡ n.identity_id))
unfolding acquire_lease new_lease
acquire_lease-role n = Triple-then _ _ λ _. Triple-then _ _ λ _. Triple-then _ _ λ _.
    Triple-then _ _ λ _. Triple-then _ _ λ _. Triple-then _ _ λ _.
      Triple-then _ _
        λ _. Triple-then _ _ λ _. Triple-then _ _ λ _. Triple-pure _ (λ db _. (refl, refl))

tx_create_identity-mode :
    (n : NewIdentity) → Triple Anything (tx_create_identity n) (λ i _. i.mode ≡ n.mode)
unfolding tx_create_identity
tx_create_identity-mode n = Triple-then _ _ λ _. Triple-then _ _ λ _. Triple-then _ _ λ _.
    Triple-then _ _ λ _.
      Triple-then _ _ λ _. Triple-then _ _ λ _. Triple-then _ _ λ _. Triple-pure _ (λ db _. refl)

-- The lease is of the identity, for the role, in the mode.
abbrev Suits : Text → Mode → Reserved → Db → Type 0
Suits role mode r db = (r.0.role ≡ role) × (r.0.identity_id ≡ r.1.id) × (r.1.mode ≡ mode)

candidate-pooled :
    (project : ℕ) (role : Text) (i : Identity)
    → is_candidate project role i ≡ true
    → i.mode ≡ Mode.pooled
unfolding is_candidate is_pooled
candidate-pooled project role i e = ground arith

candidates-pooled :
    (project : ℕ) (role : Text) (is : List Identity)
    → All
        (λ i. i.mode ≡ Mode.pooled)
        (sort_by created_before (select (is_candidate project role) is))
candidates-pooled project role is =
    sort_by-All _ _ _ (select-All _ _ (candidate-pooled project role) is)

module _ (v : Service) (run : ℕ) (role : Text) where
  lease_for-Suits :
      (i : Identity)
      → Triple Anything (lease_for v run role i) (λ l _. (l.role ≡ role) × (l.identity_id ≡ i.id))
  unfolding lease_for
  lease_for-Suits i =
      Triple-bind _ _ (acquire_lease-role _)
        λ l. Triple-bind _ _ (Triple-static _) (λ _. Triple-pure _ (λ db p. p))

  reserve_minted-Suits :
      (addr : Text) → Triple Anything (reserve_minted v run role addr) (Suits role Mode.ephemeral)
  unfolding reserve_minted
  reserve_minted-Suits addr = Triple-bind _ _ (tx_create_identity-mode _) λ i.
      Triple-at
        λ same. Triple-bind _ _ (lease_for-Suits i) (λ l. Triple-pure _ (λ db p. (p.0, p.1, same)))

  reserve_ephemeral-Suits :
      Triple Anything (reserve_ephemeral v run role) (Suits role Mode.ephemeral)
  unfolding reserve_ephemeral
  reserve_ephemeral-Suits = Triple-then _ _ (λ addr. Triple-with_tx _ (reserve_minted-Suits addr))

  next_if_held-Suits :
      (mode : Mode) (next : M Reserved)
      → Triple Anything next (Suits role mode)
      → (e : Error) → Triple Anything (next_if_held v next e) (Suits role mode)
  unfolding next_if_held
  next_if_held-Suits mode next h Error.identity_held = h
  next_if_held-Suits mode next h e = Triple-fail _

  try_candidate-Suits :
      (i : Identity) (next : M Reserved)
      → i.mode ≡ Mode.pooled
      → Triple Anything next (Suits role Mode.pooled)
      → Triple Anything (try_candidate v run role i next) (Suits role Mode.pooled)
  unfolding try_candidate
  try_candidate-Suits i next e h =
      Triple-try _ _ _ _ (Triple-with_tx _ (lease_for-Suits i))
        (next_if_held-Suits Mode.pooled next h) (λ l. Triple-pure (l, i) (λ db p. (p.0, p.1, e)))

  try_each-Suits :
      (at : ℕ) (is : List Identity)
      → All (λ i. i.mode ≡ Mode.pooled) is
      → Triple Anything (try_each v run role at is) (Suits role Mode.pooled)
  unfolding try_each
  try_each-Suits at [] h = Triple-fail _
  try_each-Suits at (i ∷ is) h =
      let next = try_each-Suits at is h.1 in
      Triple-if (cooling at i) _ _ (λ _. next) (λ _. try_candidate-Suits i _ h.0 next)

  reserve_pooled-Suits :
      (bound : Option ℕ)
      → Triple Anything (reserve_pooled v bound run role) (Suits role Mode.pooled)
  unfolding reserve_pooled list_pooled_identities
  reserve_pooled-Suits none = Triple-then _ _ (λ _. Triple-fail _)
  reserve_pooled-Suits (some bound) =
      Triple-bind _ _
        (Triple-query {Q = λ is _. All (λ i. i.mode ≡ Mode.pooled) is} _
          (λ db _. candidates-pooled v.project_id role db.identities))
        λ is. Triple-at λ h. Triple-then _ _ (λ at. try_each-Suits at is h)

  reserve-Suits : (mode : Mode) → Triple Anything (reserve v mode run role) (Suits role mode)
  unfolding reserve
  reserve-Suits Mode.ephemeral = reserve_ephemeral-Suits
  reserve-Suits Mode.pooled = reserve_pooled-Suits v.pooled
  reserve-Suits Mode.unknown = Triple-fail _

-- A seed that did not fail is settled.
abbrev Settled : SeedState → Type 0
Settled state = (state ≡ SeedState.seeded) ⊎ (state ≡ SeedState.skipped)

interpret-Settled :
    (a : SeedAnswer) → no_failure (interpret a).failure ≡ true → Settled (interpret a).status
unfolding interpret no_failure
interpret-Settled (seed_error e) h = cc
interpret-Settled (answered SeedState.seeded f) h = inl refl
interpret-Settled (answered SeedState.skipped f) h = inr refl
interpret-Settled (answered SeedState.pending f) h = cc
interpret-Settled (answered SeedState.failed f) h = cc

abbrev SettledUnless : Seeded → Type 0
SettledUnless r = no_failure r.failure ≡ true → Settled r.status

seed_with-Settled :
    (s : Option Seeder) (req : SeedRequest)
    → Triple Anything (seed_with s req) (λ r _. SettledUnless r)
unfolding seed_with
seed_with-Settled none req = Triple-pure _ (λ db _ h. inr refl)
seed_with-Settled (some seeder) req =
    Triple-then _ _ (λ a. Triple-pure _ (λ db _. interpret-Settled a))

-- What a caller of `Acquire` may rely on.
pub record Fulfils (role : Text) (mode : Mode) (g : Grant) (db : Db) : Type 0 where
  pub same_role : g.role ≡ role
  pub same_mode : g.mode ≡ mode
  pub settled : (g.seed_state ≡ SeedState.seeded) ⊎ (g.seed_state ≡ SeedState.skipped)
  -- The row of the lease, while it is held, has the state that the grant reports.
  pub stored : Stored g.lease_id g.seed_state db

acquire-Triple :
    (v : Service) (run : ℕ) (role : Text) (mode : Mode)
    → Triple Anything (acquire v run role mode) (Fulfils role mode)
unfolding acquire grant
acquire-Triple v run role mode = Triple-bind _ _ (reserve-Suits v run role mode) λ r.
    Triple-at λ suits. Triple-bind _ _ (seed_with-Settled v.seeder _) λ result. Triple-at λ settled.
      Triple-bind _ _ (settle-Stored v run r.0 r.1 result) λ _.
        Triple-bind _ _ (Triple-guard _ _) λ _. Triple-pure _ λ db p. record {
          same_role = suits.0;
          same_mode = suits.2;
          settled = settled p.0;
          stored = p.1;
        }

-- A grant that `Acquire` returns is for the role and in the mode that were asked for, and its seed
-- is settled: seeded, or skipped. The tables say the same: wherever the row of the granted lease is
-- still held, it has the seed state that the grant reports.
pub acquire-Fulfils :
    (v : Service) (run : ℕ) (role : Text) (mode : Mode) (s t : Store) (g : Grant)
    → acquire v run role mode s ≡ ok g t
    → Fulfils role mode g t.db
acquire-Fulfils v run role mode s t g = returned _ s t g (acquire-Triple v run role mode) tt
