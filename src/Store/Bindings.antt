-- ===== src/Store/Bindings.antt =====
-- internal/store/bindings.go: which lease owned a recipient when its message arrived.
use authstunt.Prelude.{
  ℕ, ◌-◌, ◌*◌, ◌%◌, Text, Bool, true, false, Option, none, some, List, [], ◌∷◌, ltb, ◌==◌, ◌&&◌,
  ◌||◌, if◌then◌else◌, any, find, select, sort_by, text_eq,
}
use authstunt.Store.Models.{Lease, Identity, Mode, Binding, Suspect, is_pooled}
use authstunt.Store.Monad.{Db, M, ok, err, constraint, millisecond, ◌>>=◌, ◌>>◌, pure, query, now}
use authstunt.Store.Identities.{is_empty, normalize}
use authstunt.Store.Leases.{owner_at}

-- `leaseOwner`: the lease with the mode of its identity.
pub record LeaseOwner : Type 0 where
  pub lease : Lease
  pub mode : Mode

abbrev pub second : ℕ
second = 1000 * millisecond

-- `acquiredAt.Truncate(originGranularity)`.
unfoldable pub truncate_second : ℕ → ℕ
truncate_second t = t - t % second

unfoldable pub is_released : Option ℕ → Bool
is_released none = false
is_released (some t) = true

-- `suspicion`; an origin of 0 is the zero time.
unfoldable pub suspicion : LeaseOwner → ℕ → Suspect
suspicion o origin =
    if o.lease.in_cooldown
    then Suspect.cooldown
    else if not_pooled
    then (if released then Suspect.after_release else Suspect.clean)
    else if origin == 0
    then Suspect.origin_unknown
    else if ltb origin (truncate_second o.lease.acquired_at)
    then Suspect.predates_lease
    else if released
    then Suspect.after_release
    else Suspect.clean
  where
    not_pooled : Bool
    not_pooled = if is_pooled o.mode then false else true

    released : Bool
    released = is_released o.lease.released_at

unfoldable pub mode_of : List Identity → ℕ → Mode
mode_of identities id = elim (find (λ i. i.id == id) identities) [
  | none ↦ Mode.unknown
  | some i ↦ i.mode
]

unfoldable pub lease_owner : Text → ℕ → Db → Option LeaseOwner
lease_owner addr at db = elim (owner_at addr at db) [
  | none ↦ none
  | some l ↦ some (record { lease = l; mode = mode_of db.identities l.identity_id })
]

-- The primary key is the pair of the message and the lease.
unfoldable pub binding_clash : Binding → Binding → Bool
binding_clash b c = c.message_id == b.message_id && c.lease_id == b.lease_id

abbrev pub binding_conflicts : Binding → List Binding → Bool
binding_conflicts b = any (binding_clash b)

unfoldable pub insert_binding : Binding → M (Unit {0})
insert_binding b s =
    if binding_conflicts b s.db.bindings
    then err constraint s
    else ok tt (record s { db = record s.db { bindings = b ∷ s.db.bindings } })

unfoldable pub new_binding : ℕ → ℕ → Text → LeaseOwner → ℕ → Binding
new_binding message origin addr o bound_at = record {
  message_id = message;
  lease_id = o.lease.id;
  run_id = o.lease.run_id;
  identity_id = o.lease.identity_id;
  addr = addr;
  bound_at = bound_at;
  suspect = suspicion o origin;
}

unfoldable pub bind_owner : ℕ → ℕ → Text → LeaseOwner → M Binding
bind_owner message origin addr o = do
  bound_at ← now
  insert_binding (new_binding message origin addr o bound_at)
  pure (new_binding message origin addr o bound_at)

abbrev pub Bound : Type 0
Bound = List Binding × List Text

unfoldable pub bind_unless : Bool → M Bound → M Bound → M Bound
bind_unless true skipped bound = skipped
bind_unless false skipped bound = bound

module _ (message received origin : ℕ) where
  -- One address that is neither empty nor a repeat; `rest` is the loop over those after it.
  unfoldable pub bind_to : Text → M Bound → Option LeaseOwner → M Bound
  bind_to addr rest none = do r ← rest; pure (r.0, addr ∷ r.1)
  bind_to addr rest (some o) = do
    b ← bind_owner message origin addr o
    r ← rest
    pure (b ∷ r.0, r.1)

  unfoldable pub bind_addr : Text → M Bound → M Bound
  bind_addr addr rest = do owner ← query (lease_owner addr received); bind_to addr rest owner

  unfoldable pub bind_each : List Text → List Text → M Bound
  bind_each seen [] = pure ([], [])
  bind_each seen (raw ∷ addrs) = do
    addr ← normalize raw
    bind_unless (is_empty addr || any (text_eq addr) seen) (bind_each seen addrs)
        (bind_addr addr (bind_each (addr ∷ seen) addrs))

  unfoldable pub bind_recipients : List Text → M Bound
  bind_recipients addrs = bind_each [] addrs

-- `ORDER BY bound_at, message_id` and `ORDER BY lease_id`.
unfoldable pub bound_before : Binding → Binding → Bool
bound_before b c =
    ltb b.bound_at c.bound_at || (b.bound_at == c.bound_at && ltb b.message_id c.message_id)

unfoldable pub list_lease_bindings : ℕ → M (List Binding)
list_lease_bindings lease =
    query (λ db. sort_by bound_before (select (λ b. b.lease_id == lease) db.bindings))

unfoldable pub list_message_bindings : ℕ → M (List Binding)
list_message_bindings message = query (λ db.
    sort_by (λ b c. ltb b.lease_id c.lease_id) (select (λ b. b.message_id == message) db.bindings))
