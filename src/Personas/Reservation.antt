-- ===== src/Personas/Reservation.antt =====
-- What `Acquire` reserves, and what a reservation that fails leaves (internal/personas/lease.go:
-- `reserveEphemeral` and `reservePooled`).
use authstunt.Prelude.{
  ℕ, ◌≡◌, refl, inl, inr, Text, Bool, true, false, Option, none, some, List, [], ◌∷◌, Bool-cases,
}
use authstunt.Ledger.Events.{lease_acquired, lease_refused, detail}
use authstunt.Store.Models.{Mode, Lease, Identity, Refusal}
use authstunt.Store.Monad.{
  Db, Store, M, Error, pooled_policy_missing, Outcome, ok, err, ◌>>=◌, with_tx, roll_back, fail,
}
use authstunt.Store.Trail.{insert_entry, append_ledger, tx_write, write}
use authstunt.Store.Identities.{list_pooled_identities}
use authstunt.Store.Leases.{cooling}
use authstunt.Store.Keeps.{Keeps, keeps_rules, Keeps-query, Keeps-wall_now}
use authstunt.Store.Triple.{Triple, Triple-pure, Triple-bind, Triple-with}
use authstunt.Store.Evidence.{
  Evidence, Tables, tables, trail, At, tx_write-At, Done, AllOrNothing, AllOrNothing-with_tx,
  AllOrNothing-fail, AllOrNothing-read, AllOrNothing-try,
}
use authstunt.Personas.Config.{Service}
use authstunt.Personas.Address.{mint_address}
use authstunt.Personas.Acquire.{
  Reserved, meta, audit_acquire, audit_refusal, lease_for, reserve_minted, reserve_ephemeral,
  next_if_held, try_candidate, try_each, reserve_pooled, reserve,
}
use authstunt.Personas.Writes.{acquire_lease-At, tx_create_identity-At}

-- An ephemeral identity is made for its lease; a pooled one is there.
abbrev pub created : Mode → Identity → List Identity → List Identity
created Mode.ephemeral i is = i ∷ is
created Mode.pooled i is = is
created Mode.unknown i is = is

-- Whether the policy that the mode asks for is missing.
abbrev pub lacks_policy : Mode → Option ℕ → Bool
lacks_policy Mode.pooled none = true
lacks_policy Mode.pooled (some bound) = false
lacks_policy Mode.ephemeral bound = false
lacks_policy Mode.unknown bound = false

module _ (v : Service) (run : ℕ) (role : Text) where
  -- The event of a lease.
  unfoldable pub acquired : Lease → Identity → Evidence
  acquired l i = (meta v run i, detail (lease_acquired l.id i.id l.role i.mode i.addr))

  abbrev IsLeased : Lease → Identity → Type 0
  IsLeased l i = (l.run_id ≡ run) × (l.identity_id ≡ i.id) × (l.role ≡ role)

  -- The lease and its event are in front of the rows that were there.
  abbrev Reserves : Mode → Tables → Reserved → Db → Type 0
  Reserves mode ts r db =
      At
        (record ts {
          leases = r.0 ∷ ts.leases;
          identities = created mode r.1 ts.identities;
          trail = acquired r.0 r.1 ∷ ts.trail;
        })
        db
      × IsLeased r.0 r.1

  lease_for-At :
      (ts : Tables) (i : Identity)
      → Triple (At ts) (lease_for v run role i) (λ l db.
        At (record ts { leases = l ∷ ts.leases; trail = acquired l i ∷ ts.trail }) db
        × IsLeased l i)
  unfolding lease_for audit_acquire acquired
  lease_for-At ts i = Triple-bind _ _ (acquire_lease-At ts _) λ l.
      Triple-with (IsLeased l i)
        λ leased. Triple-bind _ _ (tx_write-At _ _ _) (λ _. Triple-pure l (λ db p. (p, leased)))

  reserve_minted-At :
      (ts : Tables) (addr : Text)
      → Triple (At ts) (reserve_minted v run role addr) (Reserves Mode.ephemeral ts)
  unfolding reserve_minted
  reserve_minted-At ts addr =
      Triple-bind _ _ (tx_create_identity-At ts _)
        λ i. Triple-bind _ _ (lease_for-At _ i) (λ l. Triple-pure _ (λ db p. p))

  next_if_held-Reserves :
      (ts : Tables) (next : M Reserved)
      → AllOrNothing (At ts) next (Reserves Mode.pooled ts)
      → (e : Error) → AllOrNothing (At ts) (next_if_held v next e) (Reserves Mode.pooled ts)
  unfolding next_if_held
  next_if_held-Reserves ts next h Error.identity_held = h
  next_if_held-Reserves ts next h e = AllOrNothing-fail _

  try_candidate-Reserves :
      (ts : Tables) (i : Identity) (next : M Reserved)
      → AllOrNothing (At ts) next (Reserves Mode.pooled ts)
      → AllOrNothing (At ts) (try_candidate v run role i next) (Reserves Mode.pooled ts)
  unfolding try_candidate
  try_candidate-Reserves ts i next h =
      AllOrNothing-try _ _ _ (λ l. (l, i)) (AllOrNothing-with_tx _ (lease_for-At ts i))
        (next_if_held-Reserves ts next h) (λ l db p. p)

  try_each-Reserves :
      (ts : Tables) (at : ℕ) (is : List Identity)
      → AllOrNothing (At ts) (try_each v run role at is) (Reserves Mode.pooled ts)
  unfolding try_each
  try_each-Reserves ts at [] = AllOrNothing-fail _
  try_each-Reserves ts at (i ∷ is) =
      let next = try_each-Reserves ts at is in
      elim (Bool-cases (cooling at i)) [
        | inl e ↦ rw e next
        | inr e ↦ rw e (try_candidate-Reserves ts i _ next)
      ]

  mint_address-Keeps : (db : Db) → Keeps (λ x. x ≡ db) (mint_address v.domain role)
  unfolding mint_address
  mint_address-Keeps db = search keeps_rules depth 8

  reserve_ephemeral-Reserves :
      (ts : Tables)
      → AllOrNothing (At ts) (reserve_ephemeral v run role) (Reserves Mode.ephemeral ts)
  unfolding reserve_ephemeral
  reserve_ephemeral-Reserves ts =
      AllOrNothing-read _ _ mint_address-Keeps
        (λ addr. AllOrNothing-with_tx _ (reserve_minted-At ts addr))

  reserve_pooled-Reserves :
      (ts : Tables) (bound : ℕ)
      → AllOrNothing (At ts) (reserve_pooled v (some bound) run role) (Reserves Mode.pooled ts)
  unfolding reserve_pooled list_pooled_identities
  reserve_pooled-Reserves ts bound =
      AllOrNothing-read _ _ (λ db. Keeps-query _)
        λ is. AllOrNothing-read _ _ (λ db. Keeps-wall_now) (λ at. try_each-Reserves ts at is)

  -- The row that a refusal for it adds.
  unfoldable pub refusal : Evidence
  refusal = (
    record { project_id = v.project_id; run_id = run; persona_id = 0 },
    lease_refused role Mode.pooled Refusal.pooled_policy_missing,
  )

  -- What a failure leaves.
  abbrev Left : Bool → Error → Db → Db → Type 0
  Left false e before db = db ≡ before
  Left true e before db =
      (e ≡ pooled_policy_missing)
      × (record db { ledger = before.ledger } ≡ before)
      × (trail db ≡ refusal ∷ trail before)

  abbrev pub Settles : Mode → Bool → Db → Outcome Reserved → Type 0
  Settles mode lacks db (ok r t) = (lacks ≡ false) × Reserves mode (tables db) r t.db
  Settles mode lacks db (err e t) = Left lacks e db t.db

  settled-Done :
      (mode : Mode) (db : Db) (o : Outcome Reserved)
      → Done (Reserves mode (tables db)) db o
      → Settles mode false db o
  settled-Done mode db (ok r t) h = (refl, h)
  settled-Done mode db (err e t) h = h

  reserve_pooled-Settles :
      (bound : Option ℕ) (s : Store)
      → Settles Mode.pooled
          (lacks_policy Mode.pooled bound)
          s.db
          (reserve_pooled v bound run role s)
  unfolding reserve_pooled audit_refusal write tx_write append_ledger insert_entry ◌>>=◌ with_tx
      roll_back refusal trail detail
  reserve_pooled-Settles none s = (refl, refl, refl)
  reserve_pooled-Settles (some bound) s =
      settled-Done Mode.pooled s.db _ ((reserve_pooled-Reserves (tables s.db) bound).at s refl)

  -- A reservation, in any mode and in any tables, is made whole or not at all. Where it returns, the tables
  -- have, in front of what was there, a lease of the run on the returned identity, for the role; the
  -- event of that lease; and for an ephemeral reservation the identity. Where it fails, also after
  -- every candidate was found held, they are as they were, but for one case: a pooled
  -- reservation without a cooldown policy always fails, for the missing policy, and adds the row of
  -- that refusal, with the run and the role, to the ledger and changes nothing else.
  pub reserve-Settles :
      (mode : Mode) (s : Store)
      → Settles mode (lacks_policy mode v.pooled) s.db (reserve v mode run role s)
  unfolding reserve fail
  reserve-Settles Mode.ephemeral s =
      settled-Done Mode.ephemeral s.db _ ((reserve_ephemeral-Reserves (tables s.db)).at s refl)
  reserve-Settles Mode.pooled s = reserve_pooled-Settles v.pooled s
  reserve-Settles Mode.unknown s = refl
