-- ===== src/Store/Writes.antt =====
-- The invariant of the tables and the other writes of internal/store.
use authstunt.Prelude.{
  ℕ, refl, inl, inr, Text, Bool, true, false, Option, none, some, List, [], ◌∷◌, Bool-cases,
}
use authstunt.Store.Models.{Run, RunState, Identity, Binding, Claim}
use authstunt.Store.Monad.{M}
use authstunt.Store.Trail.{Meta, write, tx_write, append_ledger, insert_entry}
use authstunt.Ledger.Events.{Event, Entry}
use authstunt.Store.Identities.{
  NewIdentity, identity_clash, identity_conflicts, normalize, insert_identity, tx_create_identity,
  create_identity, cool_until, set_cooldown,
}
use authstunt.Store.Runs.{
  NewRun, hash_run_token, run_token, run_clash, run_conflicts, insert_run, tx_create_run,
  create_run, finish, update_run, end_again, tx_end_run, end_run, expire_each, expire_runs,
}
use authstunt.Store.Bindings.{
  LeaseOwner, Bound, binding_conflicts, insert_binding, bind_owner, bind_unless, bind_to, bind_addr,
  bind_each, bind_recipients,
}
use authstunt.Store.Claims.{NewClaim, claim_conflicts, insert_claim, record_claim}
use authstunt.Store.Sound.{
  Sound, update-Distinct, Sound-runs, Sound-identities, Sound-bindings, Sound-claims, Sound-ledger,
}
use authstunt.Store.Keeps.{Keeps, keeps_rules, Keeps-query, Keeps-modify, Keeps-with_tx, Keeps-bind}
use authstunt.Store.Exclusive.{release_run_leases-Sound}

insert_entry-Sound : (e : Entry) → Keeps Sound (insert_entry e)
unfolding insert_entry
insert_entry-Sound e = record { at = λ s h. Sound-ledger h _ }

append_ledger-Sound : (m : Meta) (e : Event) → Keeps Sound (append_ledger m e)
unfolding append_ledger
append_ledger-Sound m e = search (keeps_rules, insert_entry-Sound) depth 8

pub tx_write-Sound : (m : Meta) (e : Event) → Keeps Sound (tx_write m e)
unfolding tx_write
tx_write-Sound m e = append_ledger-Sound m _

pub write-Sound : (m : Meta) (e : Event) → Keeps Sound (write m e)
unfolding write
write-Sound m e = Keeps-with_tx _ (tx_write-Sound m e)

-- Each insert checks the unique indexes of its table.
insert_run-Sound : (r : Run) → Keeps Sound (insert_run r)
unfolding insert_run
insert_run-Sound r = record {
  at = λ s h. elim (Bool-cases (run_conflicts r s.db.runs)) [
    | inl taken ↦ rw taken h
    | inr free ↦ rw free (Sound-runs h _ (free, h.runs_differ))
  ];
}

insert_identity-Sound : (i : Identity) → Keeps Sound (insert_identity i)
unfolding insert_identity
insert_identity-Sound i = record {
  at = λ s h. elim (Bool-cases (identity_conflicts i s.db.identities)) [
    | inl taken ↦ rw taken h
    | inr free ↦ rw free (Sound-identities h _ (free, h.identities_differ))
  ];
}

insert_binding-Sound : (b : Binding) → Keeps Sound (insert_binding b)
unfolding insert_binding
insert_binding-Sound b = record {
  at = λ s h. elim (Bool-cases (binding_conflicts b s.db.bindings)) [
    | inl taken ↦ rw taken h
    | inr free ↦ rw free (Sound-bindings h _ (free, h.bindings_differ))
  ];
}

insert_claim-Sound : (c : Claim) → Keeps Sound (insert_claim c)
unfolding insert_claim
insert_claim-Sound c = record {
  at = λ s h. elim (Bool-cases (claim_conflicts c s.db.claims)) [
    | inl taken ↦ rw taken h
    | inr free ↦ rw free (Sound-claims h _ (free, h.claims_differ))
  ];
}

-- Runs.
outside-Sound : (token : Text) → Keeps Sound (hash_run_token token)
unfolding hash_run_token
outside-Sound token = search keeps_rules

run_token-Sound : (raw : Text) → Keeps Sound (run_token raw)
unfolding run_token
run_token-Sound raw = search keeps_rules

tx_create_run-Sound : (n : NewRun) → Keeps Sound (tx_create_run n)
unfolding tx_create_run
tx_create_run-Sound n =
    search (keeps_rules, outside-Sound, run_token-Sound, insert_run-Sound) depth 20

pub create_run-Sound : (n : NewRun) → Keeps Sound (create_run n)
unfolding create_run
create_run-Sound n = Keeps-with_tx _ (tx_create_run-Sound n)

update_run-Sound :
    (id : ℕ) (state : RunState) (reason : Text) (at : ℕ)
    → Keeps Sound (update_run id state reason at)
unfolding update_run finish run_clash
update_run-Sound id state reason at = Keeps-modify _ λ db h. Sound-runs h _ (
    update-Distinct run_clash _ (finish state reason at) db.runs (λ x y. refl) (λ x y. refl)
      h.runs_differ)

end_again-Sound : (id : ℕ) (state : RunState) → Keeps Sound (end_again id state)
unfolding end_again
end_again-Sound id state = search keeps_rules depth 8

tx_end_run-Sound :
    (id : ℕ) (state : RunState) (reason : Text) → Keeps Sound (tx_end_run id state reason)
unfolding tx_end_run
tx_end_run-Sound id state reason =
    search (keeps_rules, update_run-Sound, end_again-Sound, release_run_leases-Sound) depth 12

pub end_run-Sound :
    (id : ℕ) (state : RunState) (reason : Text) → Keeps Sound (end_run id state reason)
unfolding end_run
end_run-Sound id state reason = Keeps-with_tx _ (tx_end_run-Sound id state reason)

expire_each-Sound : (rs : List Run) → Keeps Sound (expire_each rs)
unfolding expire_each
expire_each-Sound [] = search keeps_rules
expire_each-Sound (r ∷ rs) = Keeps-bind _ _ (tx_end_run-Sound _ _ _) (λ _. expire_each-Sound rs)

pub expire_runs-Sound : Keeps Sound expire_runs
unfolding expire_runs
expire_runs-Sound = search (keeps_rules, expire_each-Sound) depth 12

-- Identities.
normalize-Sound : (a : Text) → Keeps Sound (normalize a)
unfolding normalize
normalize-Sound a = search keeps_rules

pub tx_create_identity-Sound : (n : NewIdentity) → Keeps Sound (tx_create_identity n)
unfolding tx_create_identity
tx_create_identity-Sound n = search (keeps_rules, normalize-Sound, insert_identity-Sound) depth 20

pub create_identity-Sound : (n : NewIdentity) → Keeps Sound (create_identity n)
unfolding create_identity
create_identity-Sound n = Keeps-with_tx _ (tx_create_identity-Sound n)

pub set_cooldown-Sound : (id until : ℕ) → Keeps Sound (set_cooldown id until)
unfolding set_cooldown cool_until identity_clash
set_cooldown-Sound id until = Keeps-modify _ λ db h. Sound-identities h _ (
    update-Distinct identity_clash _ (cool_until until) db.identities (λ x y. refl) (λ x y. refl)
      h.identities_differ)

-- Bindings.
bind_owner-Sound :
    (message origin : ℕ) (addr : Text) (o : LeaseOwner)
    → Keeps Sound (bind_owner message origin addr o)
unfolding bind_owner
bind_owner-Sound message origin addr o = search (keeps_rules, insert_binding-Sound) depth 10

bind_unless-Sound :
    (b : Bool) (m n : M Bound) → Keeps Sound m → Keeps Sound n → Keeps Sound (bind_unless b m n)
unfolding bind_unless
bind_unless-Sound true m n hm hn = hm
bind_unless-Sound false m n hm hn = hn

module _ (message received origin : ℕ) where
  bind_to-Sound :
      (addr : Text) (rest : M Bound) (o : Option LeaseOwner)
      → Keeps Sound rest
      → Keeps Sound (bind_to message received origin addr rest o)
  unfolding bind_to
  bind_to-Sound addr rest none h = search (keeps_rules, h) depth 6
  bind_to-Sound addr rest (some o) h =
      Keeps-bind _ _ (bind_owner-Sound message origin addr o) (λ b. search (keeps_rules, h) depth 6)

  bind_addr-Sound :
      (addr : Text) (rest : M Bound)
      → Keeps Sound rest
      → Keeps Sound (bind_addr message received origin addr rest)
  unfolding bind_addr
  bind_addr-Sound addr rest h = Keeps-bind _ _ (Keeps-query _) (λ o. bind_to-Sound addr rest o h)

  bind_each-Sound :
      (seen addrs : List Text) → Keeps Sound (bind_each message received origin seen addrs)
  unfolding bind_each
  bind_each-Sound seen [] = search keeps_rules
  bind_each-Sound seen (raw ∷ addrs) =
      search
        (
          keeps_rules,
          normalize-Sound,
          bind_unless-Sound,
          bind_addr-Sound,
          λ (more : List Text). bind_each-Sound more addrs,
        )
        depth 8

  pub bind_recipients-Sound :
      (addrs : List Text) → Keeps Sound (bind_recipients message received origin addrs)
  unfolding bind_recipients
  bind_recipients-Sound addrs = bind_each-Sound [] addrs

-- Claims.
pub record_claim-Sound : (n : NewClaim) → Keeps Sound (record_claim n)
unfolding record_claim
record_claim-Sound n = search (keeps_rules, insert_claim-Sound) depth 16
