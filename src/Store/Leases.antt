-- ===== src/Store/Leases.antt =====
-- internal/store/leases.go: exclusive ownership of an identity by a run.
use authstunt.Prelude.{
  ℕ, ◌+◌, Text, Bool, true, false, Option, none, some, List, [], ◌∷◌, not, max, length, ltb, leb,
  ◌==◌, ◌&&◌, ◌||◌, if◌then◌else◌, any, find, select, sort_by, update_where,
}
use authstunt.Store.Models.{Lease, LeaseState, SeedState, Identity, run_is_active, lease_held}
use authstunt.Store.Monad.{
  Db, M, ok, err, not_found, identity_held, lease_not_held, run_not_active, invalid, ◌>>=◌, ◌>>◌,
  pure, guard, or_fail, query, modify, now, new_id, with_tx,
}
use authstunt.Store.Address.{same_addr}
use authstunt.Store.Identities.{normalize}

pub record NewLease : Type 0 where
  pub run_id : ℕ
  pub identity_id : ℕ
  pub role : Text
  pub ttl : ℕ

-- `ORDER BY acquired_at DESC LIMIT 1`: of two rows that tie, the one inserted later.
unfoldable pub newer : Lease → Option Lease → Lease
newer l none = l
newer l (some m) = if leb m.acquired_at l.acquired_at then l else m

unfoldable pub latest : List Lease → Option Lease
latest [] = none
latest (l ∷ ls) = some (newer l (latest ls))

abbrev pub on_identity : ℕ → List Lease → List Lease
on_identity identity = select (λ l. l.identity_id == identity)

-- `leaseStart`: the store's clock, or the end of the previous lease if that is later.
unfoldable pub start_after : ℕ → Option Lease → ℕ
start_after t none = t
start_after t (some l) = elim l.released_at [
  | none ↦ t
  | some previous ↦ if ltb t previous then previous else t
]

unfoldable pub lease_start : ℕ → M ℕ
lease_start identity = do
  t ← now
  query (λ db. start_after t (latest (on_identity identity db.leases)))

unfoldable pub cooling : ℕ → Identity → Bool
cooling at i = elim i.cooldown_until [ none ↦ false | some until ↦ ltb at until ]

unfoldable pub identity_is_cooling_down : ℕ → ℕ → M Bool
identity_is_cooling_down identity at = do
  row ← query (λ db. find (λ i. i.id == identity) db.identities)
  i ← or_fail row not_found
  pure (cooling at i)

-- The primary key, and `leases_one_held_per_identity`.
unfoldable pub lease_clash : Lease → Lease → Bool
lease_clash l m = m.id == l.id || (lease_held l && (lease_held m && m.identity_id == l.identity_id))

abbrev pub lease_conflicts : Lease → List Lease → Bool
lease_conflicts l = any (lease_clash l)

unfoldable pub insert_lease : Lease → M (Unit {0})
insert_lease l s =
    if lease_conflicts l s.db.leases
    then err identity_held s
    else ok tt (record s { db = record s.db { leases = l ∷ s.db.leases } })

unfoldable pub new_lease : NewLease → ℕ → ℕ → Bool → Lease
new_lease n id start in_cooldown = record {
  id = id;
  run_id = n.run_id;
  identity_id = n.identity_id;
  role = n.role;
  state = LeaseState.held;
  seed_state = SeedState.pending;
  seed_fingerprint = [];
  acquired_at = start;
  expires_at = start + n.ttl;
  released_at = none;
  in_cooldown = in_cooldown;
}

unfoldable pub acquire_lease : NewLease → M Lease
acquire_lease n = do
  guard (not (n.run_id == 0 || n.identity_id == 0)) invalid
  guard (ltb 0 n.ttl) invalid
  row ← query (λ db. find (λ r. r.id == n.run_id) db.runs)
  r ← or_fail row not_found
  guard (run_is_active r.state) run_not_active
  start ← lease_start n.identity_id
  in_cooldown ← identity_is_cooling_down n.identity_id start
  id ← new_id
  insert_lease (new_lease n id start in_cooldown)
  pure (new_lease n id start in_cooldown)

-- `MAX(?, acquired_at)`.
unfoldable pub lease_end : ℕ → Lease → ℕ
lease_end at l = max at l.acquired_at

unfoldable pub end_lease : LeaseState → ℕ → Lease → Lease
end_lease state at l = record l { state = state; released_at = some (lease_end at l) }

unfoldable pub settle_row : SeedState → Text → ℕ → Lease → Lease
settle_row SeedState.failed fingerprint at l =
    end_lease LeaseState.failed at
      (record l { seed_state = SeedState.failed; seed_fingerprint = fingerprint })
settle_row state fingerprint at l = record l { seed_state = state; seed_fingerprint = fingerprint }

unfoldable pub is_outcome : SeedState → Bool
is_outcome SeedState.pending = false
is_outcome _ = true

-- The guard that every update of a lease has: its id, or its run, and `state = 'held'`.
abbrev pub held_with_id : ℕ → Lease → Bool
held_with_id id l = l.id == id && lease_held l

abbrev pub held_by_run : ℕ → Lease → Bool
held_by_run run l = l.run_id == run && lease_held l

unfoldable pub update_leases : (Lease → Bool) → (Lease → Lease) → M (Unit {0})
update_leases p f = modify (λ db. record db { leases = update_where p f db.leases })

unfoldable pub settle_seed : ℕ → SeedState → Text → M (Unit {0})
settle_seed id state fingerprint = do
  guard (is_outcome state) invalid
  at ← now
  affected ← query (λ db. any (held_with_id id) db.leases)
  update_leases (held_with_id id) (settle_row state fingerprint at)
  guard affected lease_not_held

-- Releasing a lease that has already ended is no error.
unfoldable pub tx_release_lease : ℕ → M (Unit {0})
tx_release_lease id = do
  at ← now
  affected ← query (λ db. any (held_with_id id) db.leases)
  update_leases (held_with_id id) (end_lease LeaseState.released at)
  known ← query (λ db. any (λ l. l.id == id) db.leases)
  guard (affected || known) not_found

unfoldable pub release_lease : ℕ → M (Unit {0})
release_lease id = with_tx (tx_release_lease id)

unfoldable pub release_run_leases : ℕ → ℕ → M (Unit {0})
release_run_leases run at = update_leases (held_by_run run) (end_lease LeaseState.released at)

abbrev pub held_past : ℕ → Lease → Bool
held_past at l = lease_held l && leb l.expires_at at

-- The statement reads the clock twice: the end, then the limit.
unfoldable pub expire_leases : M ℕ
expire_leases = with_tx (do
  at ← now
  limit ← now
  expired ← query (λ db. length (select (held_past limit) db.leases))
  update_leases (held_past limit) (end_lease LeaseState.expired at)
  pure expired)

unfoldable pub lease_by_id : ℕ → M Lease
lease_by_id id = do row ← query (λ db. find (λ l. l.id == id) db.leases); or_fail row not_found

-- `ORDER BY acquired_at, id`.
unfoldable pub acquired_before : Lease → Lease → Bool
acquired_before l m =
    ltb l.acquired_at m.acquired_at || (l.acquired_at == m.acquired_at && ltb l.id m.id)

unfoldable pub list_run_leases : ℕ → M (List Lease)
list_run_leases run =
    query (λ db. sort_by acquired_before (select (λ l. l.run_id == run) db.leases))

-- The interval that a lease covers is `[acquired_at, released_at)`.
unfoldable pub covers : ℕ → Lease → Bool
covers at l = leb l.acquired_at at && elim l.released_at [ none ↦ true | some end ↦ ltb at end ]

-- The join with the identity that has the address.
unfoldable pub is_for : List Identity → Text → Lease → Bool
is_for identities addr l = any (λ i. i.id == l.identity_id && same_addr i.addr addr) identities

unfoldable pub owner_rows : Text → ℕ → Db → List Lease
owner_rows addr at db = select (λ l. is_for db.identities addr l && covers at l) db.leases

unfoldable pub owner_at : Text → ℕ → Db → Option Lease
owner_at addr at db = latest (owner_rows addr at db)

unfoldable pub lease_at : Text → ℕ → M Lease
lease_at raw at = do addr ← normalize raw; row ← query (owner_at addr at); or_fail row not_found
