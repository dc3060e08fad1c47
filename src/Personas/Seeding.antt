-- ===== src/Personas/Seeding.antt =====
-- The settled seed of a lease (internal/personas/lease.go: `settle`, and internal/store/leases.go:
-- `SettleSeed`).
use authstunt.Prelude.{
  ℕ, ◌≡◌, refl, ◌⊎◌, inl, inr, Text, Bool, true, false, List, [], ◌∷◌, All, select, update_where,
  if◌then◌else◌,
}
use authstunt.Ledger.Events.{Event}
use authstunt.Store.Models.{Lease, Identity, SeedState}
use authstunt.Store.Monad.{
  Db, Store, M, Error, Outcome, ok, err, invalid, lease_not_held, pure, fail, guard, ◌>>=◌, try,
  handle,
}
use authstunt.Store.Trail.{Meta, insert_entry, append_ledger, tx_write}
use authstunt.Store.Identities.{set_cooldown}
use authstunt.Store.Leases.{
  end_lease, settle_row, is_outcome, held_with_id, update_leases, settle_seed,
}
use authstunt.Store.Keeps.{Keeps, keeps_rules, Keeps-bind, Keeps-now, Keeps-modify, Keeps-pure}
use authstunt.Store.Triple.{Returned, Triple, Anything, Triple-with_tx, Triple-keeps}
use authstunt.Personas.Config.{Service}
use authstunt.Personas.Acquire.{Seeded, when, start_cooldown, record_seed, unless_lost, settle}

-- The row of the lease, while it is held, has the state.
abbrev pub Stored : ℕ → SeedState → Db → Type 0
Stored id state db = All (λ l. l.seed_state ≡ state) (select (held_with_id id) db.leases)

settle_row-state :
    (state : SeedState) (fingerprint : Text) (at : ℕ) (l : Lease)
    → (settle_row state fingerprint at l).seed_state ≡ state
unfolding settle_row end_lease
settle_row-state SeedState.pending fingerprint at l = refl
settle_row-state SeedState.seeded fingerprint at l = refl
settle_row-state SeedState.failed fingerprint at l = refl
settle_row-state SeedState.skipped fingerprint at l = refl

All-if :
    (P : Lease → Type 0) (b : Bool) (l : Lease) (ls : List Lease)
    → P l
    → All P ls
    → All P (if b then l ∷ ls else ls)
All-if P true l ls h hs = (h, hs)
All-if P false l ls h hs = hs

-- Every row that is held under the id has been settled.
update_where-state :
    (id : ℕ) (state : SeedState) (fingerprint : Text) (at : ℕ) (ls : List Lease)
    → All
        (λ l. l.seed_state ≡ state)
        (select
          (held_with_id id)
          (update_where (held_with_id id) (settle_row state fingerprint at) ls))
unfolding select update_where
update_where-state id state fingerprint at [] = tt
update_where-state id state fingerprint at (l ∷ ls) =
    split (update_where-state id state fingerprint at ls) (held_with_id id l) refl
  where
    rest : List Lease
    rest =
        select (held_with_id id)
          (update_where (held_with_id id) (settle_row state fingerprint at) ls)

    split :
        All (λ m. m.seed_state ≡ state) rest
        → (b : Bool) → held_with_id id l ≡ b
        → All
            (λ m. m.seed_state ≡ state)
            (if held_with_id id (if b then settle_row state fingerprint at l else l)
              then (if b then settle_row state fingerprint at l else l) ∷ rest
              else rest)
    split h true e =
        All-if (λ m. m.seed_state ≡ state) _ _ _ (settle_row-state state fingerprint at l) h
    split h false e = rw e h

-- A settled row, or an argument that is refused.
abbrev Settled : ℕ → SeedState → Outcome (Unit {0}) → Type 0
Settled id state (ok u s) = Stored id state s.db
Settled id state (err e s) = (e ≡ invalid) ⊎ Stored id state s.db

Settled-guard :
    (id : ℕ) (state : SeedState) (b : Bool) (s : Store)
    → Stored id state s.db
    → Settled id state (guard b lease_not_held s)
unfolding guard
Settled-guard id state true s h = h
Settled-guard id state false s h = inr h

settle_seed-Settled :
    (id : ℕ) (state : SeedState) (fingerprint : Text) (s : Store)
    → Settled id state (settle_seed id state fingerprint s)
unfolding settle_seed is_outcome update_leases ◌>>=◌
settle_seed-Settled id SeedState.pending fingerprint s = inl refl
settle_seed-Settled id SeedState.seeded fingerprint s =
    Settled-guard id SeedState.seeded _ _ (update_where-state id _ fingerprint _ s.db.leases)
settle_seed-Settled id SeedState.failed fingerprint s =
    Settled-guard id SeedState.failed _ _ (update_where-state id _ fingerprint _ s.db.leases)
settle_seed-Settled id SeedState.skipped fingerprint s =
    Settled-guard id SeedState.skipped _ _ (update_where-state id _ fingerprint _ s.db.leases)

module _ (id : ℕ) (state : SeedState) where
  insert_entry-Stored : (m : Meta) (e : Event) → Keeps (Stored id state) (tx_write m e)
  unfolding tx_write append_ledger insert_entry
  insert_entry-Stored m e = Keeps-bind _ _ Keeps-now (λ t. record { at = λ s h. h })

  start_cooldown-Stored :
      (v : Service) (i : Identity) → Keeps (Stored id state) (start_cooldown v i)
  unfolding start_cooldown set_cooldown
  start_cooldown-Stored v i = search (keeps_rules, Keeps-modify) depth 8

  when-Stored :
      (b : Bool) (m : M (Unit {0})) → Keeps (Stored id state) m → Keeps (Stored id state) (when b m)
  unfolding when
  when-Stored true m k = k
  when-Stored false m k = Keeps-pure _

  record_seed-Stored :
      (v : Service) (run : ℕ) (l : Lease) (i : Identity) (r : Seeded)
      → Keeps (Stored id state) (record_seed v run l i r)
  unfolding record_seed
  record_seed-Stored v run l i r =
      Keeps-bind _ _ (when-Stored _ _ (start_cooldown-Stored v i)) (λ _. insert_entry-Stored _ _)

  lost-Stored :
      (v : Service) (e : Error) (s : Store)
      → (e ≡ invalid) ⊎ Stored id state s.db
      → Returned (λ _. Stored id state) (unless_lost v e s)
  unfolding unless_lost pure fail
  lost-Stored v Error.lease_not_held s (inl e) = cc
  lost-Stored v Error.lease_not_held s (inr h) = h
  lost-Stored v e s h = tt

  handled :
      (v : Service) (o : Outcome (Unit {0})) (k : M (Unit {0}))
      → Settled id state o
      → Keeps (Stored id state) k
      → Returned (λ _. Stored id state) (handle o (unless_lost v) (λ _. k))
  unfolding handle
  handled v (ok u s) k h keep =
      (Triple-keeps {Q = λ _. Stored id state} k keep (λ _ db p. p)).at s h
  handled v (err e s) k h keep = lost-Stored v e s h

-- Where the settling of a seed returns, the row of the lease has the outcome, or the lease is not held.
pub settle-Stored :
    (v : Service) (run : ℕ) (l : Lease) (i : Identity) (r : Seeded)
    → Triple Anything (settle v run l i r) (λ _. Stored l.id r.status)
unfolding settle try
settle-Stored v run l i r = Triple-with_tx _ (record {
  at = λ s p.
      handled l.id r.status v _ _ (settle_seed-Settled l.id r.status r.fingerprint s)
        (record_seed-Stored l.id r.status v run l i r);
})
