-- ===== src/Store/Endings.antt =====
-- The endings of internal/store/leases.go and runs.go.
use authstunt.Prelude.{
  ℕ, ◌≡◌, refl, inl, inr, Text, Bool, true, false, not, List, [], ◌∷◌, any, update_where,
  Bool-cases, arith,
}
use authstunt.Store.Models.{Run, RunState, Lease, LeaseState, run_is_active, lease_held}
use authstunt.Store.Monad.{Db, Store, ok}
use authstunt.Store.Leases.{
  end_lease, held_with_id, held_by_run, update_leases, tx_release_lease, release_lease,
  release_run_leases,
}
use authstunt.Store.Runs.{finish, active_with_id, update_run, tx_end_run, end_run}
use authstunt.Store.Keeps.{keeps_rules, Keeps-now}
use authstunt.Store.Triple.{
  Triple, Anything, Triple-modify, Triple-query, Triple-keeps, Triple-guard, Triple-bind,
  Triple-then, Triple-with_tx, Triple-if, Triple-at, returned,
}

module _ {A : Type 0} (p : A → Bool) (f : A → A)
    (leaves : (x : A) → p x ≡ true → p (f x) ≡ false) where
  -- After an update that takes its rows out of its own test, no row passes it.
  pub update-none : (xs : List A) → any p (update_where p f xs) ≡ false
  unfolding any update_where
  update-none [] = refl
  update-none (x ∷ xs) = elim (Bool-cases (p x)) [
    | inl e ↦ rw (e, leaves x e, update-none xs) refl
    | inr e ↦ rw (e, update-none xs, e) refl
  ]

update_leases-NoneLeft :
    (P : Db → Type 0) (p : Lease → Bool) (f : Lease → Lease)
    → ((l : Lease) → p l ≡ true → p (f l) ≡ false)
    → Triple P (update_leases p f) (λ _ db. any p db.leases ≡ false)
unfolding update_leases
update_leases-NoneLeft P p f leaves = Triple-modify _ (λ db _. update-none p f leaves db.leases)

release-leaves :
    (id at : ℕ) (l : Lease)
    → held_with_id id l ≡ true
    → held_with_id id (end_lease LeaseState.released at l) ≡ false
unfolding end_lease lease_held
release-leaves id at l h = ground arith

tx_release_lease-Triple :
    (id : ℕ)
    → Triple Anything (tx_release_lease id) (λ _ db. any (held_with_id id) db.leases ≡ false)
unfolding tx_release_lease
tx_release_lease-Triple id = Triple-then _ _ λ at. Triple-then _ _ λ affected.
    Triple-bind _ _ (update_leases-NoneLeft Anything _ _ (release-leaves id at))
      λ _. Triple-keeps _ (search keeps_rules depth 8) (λ _ db h. h)

run-leaves :
    (run at : ℕ) (l : Lease)
    → held_by_run run l ≡ true
    → held_by_run run (end_lease LeaseState.released at l) ≡ false
unfolding end_lease lease_held
run-leaves run at l h = ground arith

finish-leaves :
    (id at : ℕ) (state : RunState) (reason : Text) (r : Run)
    → run_is_active state ≡ false
    → active_with_id id r ≡ true
    → active_with_id id (finish state reason at r) ≡ false
unfolding finish
finish-leaves id at state reason r e h = rw e (ground arith)

-- The run is over, and holds nothing.
abbrev pub Over : ℕ → Db → Type 0
Over run db = (any (active_with_id run) db.runs ≡ false) × (any (held_by_run run) db.leases ≡ false)

not-true : (b : Bool) → not b ≡ true → b ≡ false
not-true true h = cc
not-true false h = refl

update_run-Triple :
    (id : ℕ) (state : RunState) (reason : Text) (at : ℕ)
    → run_is_active state ≡ false
    → Triple Anything
        (update_run id state reason at)
        (λ _ db. any (active_with_id id) db.runs ≡ false)
unfolding update_run
update_run-Triple id state reason at e =
    Triple-modify _ (λ db _. update-none _ _ (λ r. finish-leaves id at state reason r e) db.runs)

release_run_leases-Triple :
    (id at : ℕ)
    → Triple
        (λ db. any (active_with_id id) db.runs ≡ false)
        (release_run_leases id at)
        (λ _. Over id)
unfolding release_run_leases update_leases
release_run_leases-Triple id at =
    Triple-modify _ (λ db h. (h, update-none _ _ (run-leaves id at) db.leases))

tx_end_run-Triple :
    (id : ℕ) (state : RunState) (reason : Text)
    → Triple
        (λ db. any (active_with_id id) db.runs ≡ true)
        (tx_end_run id state reason)
        (λ _. Over id)
unfolding tx_end_run
tx_end_run-Triple id state reason = Triple-bind _ _ (Triple-guard _ _) λ _.
    Triple-bind _ _ (Triple-keeps _ Keeps-now (λ _ db p. p)) λ at.
      Triple-bind _ _
        (Triple-query {Q = λ affected _. (affected ≡ true) × (not (run_is_active state) ≡ true)} _
          (λ db p. (p.1, p.0)))
        λ affected. Triple-at λ known.
          Triple-bind _ _ (update_run-Triple id state reason at (not-true _ known.1)) λ _.
            Triple-if affected _ _ (λ _. release_run_leases-Triple id at)
              (λ e. absurd (ground arith))

pub end_run-Triple :
    (id : ℕ) (state : RunState) (reason : Text)
    → Triple (λ db. any (active_with_id id) db.runs ≡ true) (end_run id state reason) (λ _. Over id)
unfolding end_run
end_run-Triple id state reason = Triple-with_tx _ (tx_end_run-Triple id state reason)

-- Where a run is active and `EndRun` returns, the run is no longer active and none of its leases is
-- held.
pub end_run-Over :
    (id : ℕ) (state : RunState) (reason : Text) (s t : Store)
    → any (active_with_id id) s.db.runs ≡ true
    → end_run id state reason s ≡ ok tt t
    → Over id t.db
end_run-Over id state reason s t active = returned _ s t tt (end_run-Triple id state reason) active

-- Where `ReleaseLease` returns, the lease is not held.
pub release_lease-NoneHeld :
    (id : ℕ) (s t : Store)
    → release_lease id s ≡ ok tt t
    → any (held_with_id id) t.db.leases ≡ false
unfolding release_lease
release_lease-NoneHeld id s t = returned _ s t tt (Triple-with_tx _ (tx_release_lease-Triple id)) tt
