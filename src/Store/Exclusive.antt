-- ===== src/Store/Exclusive.antt =====
-- The invariant of the tables and internal/store/leases.go.
use authstunt.Prelude.{
  ℕ, ◌==◌, ◌≡◌, refl, sym, inl, inr, Text, Bool, true, Bool-cases, and_left, and_right,
}
use mathlib.Core.Bool.{false≢true}
use authstunt.Store.Models.{Lease, LeaseState, SeedState, lease_held}
use authstunt.Store.Monad.{Db, M, next_instant, ◌>>=◌}
use authstunt.Store.Leases.{
  NewLease, lease_start, identity_is_cooling_down, lease_conflicts, insert_lease, new_lease,
  acquire_lease, end_lease, settle_row, held_with_id, held_by_run, held_past, update_leases,
  settle_seed, tx_release_lease, release_lease, release_run_leases, expire_leases,
}
use authstunt.Store.Intervals.{
  IsInterval, FreeAt, NoneHeld, Evolves, end_lease-Evolves, settle_row-Evolves, update-Ordered,
  start-FreeAt, not-conflicts-NoneHeld,
}
use authstunt.Store.Sound.{Sound, Sound-leases}
use authstunt.Store.Keeps.{Keeps, keeps_rules, Keeps-modify, Keeps-with_tx}

-- An update guarded by `state = 'held'`.
update_leases-Sound :
    (p : Lease → Bool) (f : Lease → Lease)
    → ((l : Lease) → p l ≡ true → Evolves l (f l))
    → Keeps Sound (update_leases p f)
unfolding update_leases
update_leases-Sound p f ev =
    Keeps-modify _ (λ db h. Sound-leases h _ (update-Ordered p f ev db.leases h.timeline))

pub release_run_leases-Sound : (run at : ℕ) → Keeps Sound (release_run_leases run at)
unfolding release_run_leases
release_run_leases-Sound run at =
    update_leases-Sound (held_by_run run) (end_lease LeaseState.released at)
      (λ l h. end_lease-Evolves LeaseState.released at l (and_right _ _ h) (λ e. cc))

release_update :
    (id at : ℕ) → Keeps Sound (update_leases (held_with_id id) (end_lease LeaseState.released at))
release_update id at =
    update_leases-Sound (held_with_id id) (end_lease LeaseState.released at)
      (λ l h. end_lease-Evolves LeaseState.released at l (and_right _ _ h) (λ e. cc))

pub tx_release_lease-Sound : (id : ℕ) → Keeps Sound (tx_release_lease id)
unfolding tx_release_lease
tx_release_lease-Sound id = search (keeps_rules, release_update) depth 12

pub settle_seed-Sound :
    (id : ℕ) (state : SeedState) (fingerprint : Text)
    → Keeps Sound (settle_seed id state fingerprint)
unfolding settle_seed
settle_seed-Sound id state fingerprint = search (keeps_rules, update) depth 12
  where
    update :
        (at : ℕ) → Keeps Sound (update_leases (held_with_id id) (settle_row state fingerprint at))
    update at =
        update_leases-Sound (held_with_id id) (settle_row state fingerprint at) (λ l h.
          settle_row-Evolves state fingerprint at l (and_right (l.id == id) (lease_held l) h))

-- What `leaseStart` establishes for the insert after it.
abbrev Ready : ℕ → ℕ → Db → Type 0
Ready i start db = Sound db × (NoneHeld i db.leases → FreeAt i start db.leases)

insert_lease-Ready :
    (n : NewLease) (id start : ℕ) (c : Bool)
    → Keeps (Ready n.identity_id start) (insert_lease (new_lease n id start c))
unfolding insert_lease new_lease lease_held
insert_lease-Ready n id start c = record {
  at = λ s h. elim (Bool-cases (lease_conflicts (new_lease n id start c) s.db.leases)) [
    | inl taken ↦ rw taken h
    | inr free ↦
        let none_held = not-conflicts-NoneHeld (new_lease n id start c) s.db.leases refl free in
        rw free (
          Sound-leases h.0 _ (fresh, h.1 none_held, h.0.timeline),
          (λ held. absurd (false≢true (sym (held.0 refl)))),
        )
  ];
}
  where
    fresh : IsInterval (new_lease n id start c)
    fresh = record { ends_after = tt; held_open = λ _. refl; ended_closed = λ e. cc }

lease_start-Ready :
    {A : Type 0} (i : ℕ) (f : ℕ → M A)
    → ((start : ℕ) → Keeps (Ready i start) (f start))
    → Keeps Sound (lease_start i >>= f)
unfolding lease_start ◌>>=◌
lease_start-Ready i f kf = record {
  at = λ s h.
      ((kf _).at _ (
        h,
        start-FreeAt i (next_instant (s.outside.wall s.readings) s.last_now) s.db.leases h.timeline,
      )).0;
}

identity_is_cooling_down-Keeps :
    {P : Db → Type 0} (i at : ℕ) → Keeps P (identity_is_cooling_down i at)
unfolding identity_is_cooling_down
identity_is_cooling_down-Keeps i at = search keeps_rules depth 8

pub acquire_lease-Sound : (n : NewLease) → Keeps Sound (acquire_lease n)
unfolding acquire_lease
acquire_lease-Sound n =
    search (keeps_rules, lease_start-Ready, identity_is_cooling_down-Keeps, insert_lease-Ready)
      depth 20

pub release_lease-Sound : (id : ℕ) → Keeps Sound (release_lease id)
unfolding release_lease
release_lease-Sound id = Keeps-with_tx _ (tx_release_lease-Sound id)

expire_update :
    (limit at : ℕ) → Keeps Sound (update_leases (held_past limit) (end_lease LeaseState.expired at))
expire_update limit at =
    update_leases-Sound (held_past limit) (end_lease LeaseState.expired at)
      (λ l h. end_lease-Evolves LeaseState.expired at l (and_left _ _ h) (λ e. cc))

pub expire_leases-Sound : Keeps Sound expire_leases
unfolding expire_leases
expire_leases-Sound = search (keeps_rules, expire_update) depth 12
