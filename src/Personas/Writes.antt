-- ===== src/Personas/Writes.antt =====
-- What the insertion of a lease and of an identity writes (internal/store/leases.go: `AcquireLease`, and
-- internal/store/identities.go: `CreateIdentity`).
use authstunt.Prelude.{ℕ, ◌≡◌, refl, ap, inl, inr, Text, ◌∷◌, Bool-cases}
use authstunt.Store.Models.{Lease, Identity}
use authstunt.Store.Monad.{Db, M, ◌>>=◌}
use authstunt.Store.Identities.{
  NewIdentity, identity_conflicts, insert_identity, normalize, tx_create_identity,
}
use authstunt.Store.Leases.{
  NewLease, lease_conflicts, lease_start, identity_is_cooling_down, insert_lease, new_lease,
  acquire_lease,
}
use authstunt.Store.Keeps.{
  Keeps, keeps_rules, Keeps-guard, Keeps-query, Keeps-or_fail, Keeps-new_id, Keeps-now,
}
use authstunt.Store.Triple.{Triple, Triple-pure, Triple-keeps, Triple-bind}
use authstunt.Store.Evidence.{Tables, tables, trail, At}

insert_lease-At :
    (ts : Tables) (l : Lease)
    → Triple (At ts) (insert_lease l) (λ _. At (record ts { leases = l ∷ ts.leases }))
unfolding insert_lease tables trail
insert_lease-At ts l = record {
  at = λ s p. elim (Bool-cases (lease_conflicts l s.db.leases)) [
    | inl e ↦ rw e tt
    | inr e ↦ rw e (ap (λ (x : Tables). record x { leases = l ∷ x.leases }) p)
  ];
}

insert_identity-At :
    (ts : Tables) (i : Identity)
    → Triple (At ts) (insert_identity i) (λ _. At (record ts { identities = i ∷ ts.identities }))
unfolding insert_identity tables trail
insert_identity-At ts i = record {
  at = λ s p. elim (Bool-cases (identity_conflicts i s.db.identities)) [
    | inl e ↦ rw e tt
    | inr e ↦ rw e (ap (λ (x : Tables). record x { identities = i ∷ x.identities }) p)
  ];
}

-- A read in front of a call.
Triple-after :
    {A B : Type 0} {ts : Tables} {Q : B → Db → Type 0} (m : M A) (f : A → M B)
    → Keeps (At ts) m
    → ((a : A) → Triple (At ts) (f a) Q)
    → Triple (At ts) (m >>= f) Q
Triple-after m f k h = Triple-bind m f (Triple-keeps m k (λ _ db p. p)) h

module _ (ts : Tables) where
  lease_start-At : (identity : ℕ) → Keeps (At ts) (lease_start identity)
  unfolding lease_start
  lease_start-At identity = search keeps_rules depth 6

  cooling_down-At : (identity at : ℕ) → Keeps (At ts) (identity_is_cooling_down identity at)
  unfolding identity_is_cooling_down
  cooling_down-At identity at = search keeps_rules depth 6

  normalize-At : (raw : Text) → Keeps (At ts) (normalize raw)
  unfolding normalize
  normalize-At raw = search keeps_rules depth 4

  pub acquire_lease-At :
      (n : NewLease)
      → Triple (At ts) (acquire_lease n) (λ l db.
        At (record ts { leases = l ∷ ts.leases }) db
        × ((l.run_id ≡ n.run_id) × (l.identity_id ≡ n.identity_id) × (l.role ≡ n.role)))
  unfolding acquire_lease new_lease
  acquire_lease-At n = Triple-after _ _ (Keeps-guard _ _) λ _.
      Triple-after _ _ (Keeps-guard _ _) λ _. Triple-after _ _ (Keeps-query _) λ row.
        Triple-after _ _ (Keeps-or_fail _ _) λ r. Triple-after _ _ (Keeps-guard _ _) λ _.
          Triple-after _ _ (lease_start-At _) λ start.
            Triple-after _ _ (cooling_down-At _ _) λ in_cooldown.
              Triple-after _ _ Keeps-new_id λ id.
                Triple-bind _ _ (insert_lease-At ts _)
                  (λ _. Triple-pure _ (λ db p. (p, (refl, refl, refl))))

  pub tx_create_identity-At :
      (n : NewIdentity)
      → Triple
          (At ts)
          (tx_create_identity n)
          (λ i. At (record ts { identities = i ∷ ts.identities }))
  unfolding tx_create_identity
  tx_create_identity-At n = Triple-after _ _ (Keeps-guard _ _) λ _.
      Triple-after _ _ (Keeps-guard _ _) λ _. Triple-after _ _ (normalize-At _) λ addr.
        Triple-after _ _ (Keeps-guard _ _) λ _. Triple-after _ _ Keeps-new_id λ id.
          Triple-after _ _ Keeps-now
            λ created. Triple-bind _ _ (insert_identity-At ts _) (λ _. Triple-pure _ (λ db p. p))
