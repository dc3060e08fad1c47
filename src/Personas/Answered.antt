-- ===== src/Personas/Answered.antt =====
-- The answers of `Claim` (internal/personas/claim.go).
use authstunt.Prelude.{
  subst, ◌∙◌, find-holds, ==_iff, ℕ, ◌≡◌, ◌≢◌, refl, inl, inr, Text, Bool, true, false, Option,
  none, some, List, [], ◌∷◌, find, any, ◌==◌, Bool-cases, arith, text_eq_refl, ltb,
}
use authstunt.Store.Models.{Run, Lease, Identity, Claim, Reason}
use authstunt.Store.Monad.{Db, Store, M, Error, ok, ◌>>=◌}
use authstunt.Store.Identities.{is_empty}
use authstunt.Ledger.Events.{Event}
use authstunt.Store.Trail.{Meta, insert_entry, append_ledger, tx_write, write}
use authstunt.Store.Keeps.{Keeps, Keeps-with_tx, Keeps-bind, Keeps-now}
use authstunt.Store.Leases.{lease_by_id}
use authstunt.Store.Claims.{
  Candidate, NewClaim, Rejections, claim_conflicts, insert_claim, new_claim, record_claim,
}
use authstunt.Store.Triple.{
  Triple, Anything, Triple-pure, Triple-fail, Triple-or_fail, Triple-query, Triple-if, Triple-keeps,
  Triple-bind, Triple-then, Triple-try, Triple-at, returned,
}
use authstunt.Personas.Config.{Service}
use authstunt.Personas.Backed.{
  grants, Backed, refusal-Backed, Backed-Keeps, claim_by_key-Found, BackedIf, replay_row-Backed,
  none_if_missing-Backed, or_next-Backed, or_else-Backed,
}
use authstunt.Personas.Claim.{
  Claimed, ClaimRequest, handed_over, gate, replay, explanation, claim_for, refused_record,
  take_one, take, attempt, explain, park, wait_loop, search_mail, settle_claim, replay_or_search,
  gated, claim,
}

-- The granted row is in the table.
insert_claim-grants :
    (c : Claim) (value : Text)
    → Triple Anything (insert_claim c) λ _ db.
      any (grants c.lease_id c.idempotency_key (handed_over c.id c.message_id value)) db.claims
      ≡ true
unfolding insert_claim any grants
insert_claim-grants c value = record {
  at = λ s _. elim (Bool-cases (claim_conflicts c s.db.claims)) [
    | inl taken ↦ rw taken tt
    | inr free ↦ rw free (ground (arith, text_eq_refl c.idempotency_key))
  ];
}

record_claim-grants :
    (n : NewClaim) (value : Text)
    → Triple Anything (record_claim n) λ c db.
      any (grants n.lease_id n.idempotency_key (handed_over c.id n.message_id value)) db.claims
      ≡ true
unfolding record_claim new_claim
record_claim-grants n value = Triple-then _ _ λ _. Triple-then _ _ λ _. Triple-then _ _ λ at.
    Triple-then _ _ λ _. Triple-then _ _ λ id.
      Triple-bind _ _ (insert_claim-grants (new_claim n id at) value)
        (λ _. Triple-pure _ (λ db p. p))

gate-refuses :
    (run : Run) (lease : Lease) (r : Reason) → gate run lease ≡ some r → r ≢ Reason.claim_ok
unfolding gate
gate-refuses run lease r h = ground arith

explanation-refuses : (r : Rejections) → explanation r ≢ Reason.claim_ok
unfolding explanation
explanation-refuses r = ground arith

module _ (v : Service) (run : Run) (lease : Lease) (req : ClaimRequest) where
  abbrev Answers : Claimed → Db → Type 0
  Answers = Backed lease.id req.idempotency_key

  replay-Backed : Triple Anything (replay lease.id req) (BackedIf lease.id req.idempotency_key)
  unfolding replay
  replay-Backed =
      Triple-try _ _ _ _ (claim_by_key-Found lease.id req.idempotency_key)
        (none_if_missing-Backed lease.id req.idempotency_key)
        (replay_row-Backed lease.id req.idempotency_key req.kind)

  refused_record-Backed :
      (next : M Claimed)
      → Triple Anything next Answers
      → (e : Error) → Triple Anything (refused_record v run lease req next e) Answers
  unfolding refused_record
  refused_record-Backed next h Error.claim_window_closed =
      Triple-pure _
        (λ db _. refusal-Backed lease.id req.idempotency_key Reason.lease_not_held 0 db (λ x. cc))
  refused_record-Backed next h Error.claim_taken =
      Triple-bind _ _ replay-Backed (λ o. or_next-Backed lease.id req.idempotency_key next o h)
  refused_record-Backed next h e = Triple-fail _

  take_one-Backed :
      (c : Candidate) (value : Text) (next : M Claimed)
      → is_empty value ≡ false
      → Triple Anything next Answers
      → Triple Anything (take_one v run lease req c value next) Answers
  unfolding take_one claim_for
  take_one-Backed c value next e h =
      Triple-try _ _ _ _ (record_claim-grants (claim_for v run lease req c) value)
        (refused_record-Backed next h) (λ claim. Triple-pure _ (λ db p. inr (refl, e, p)))

  take-Backed : (cs : List Candidate) → Triple Anything (take v run lease req cs) Answers
  unfolding take
  take-Backed [] = Triple-pure _ (λ db _. inl (refl, λ x. cc))
  take-Backed (c ∷ cs) =
      let next = take-Backed cs in
      Triple-then _ _
        λ value. Triple-if (is_empty value) _ _ (λ _. next) (λ e. take_one-Backed c value _ e next)

  attempt-Backed : Triple Anything (attempt v run lease req) Answers
  unfolding attempt
  attempt-Backed = Triple-then _ _ (λ found. take-Backed found.0)

  explain-Backed : Triple Anything (explain v run lease req) Answers
  unfolding explain
  explain-Backed = Triple-then _ _ λ found. Triple-bind _ _ (take-Backed found.0) λ late.
      or_else-Backed lease.id req.idempotency_key late _ (
        Triple-pure _ λ db _.
          refusal-Backed lease.id req.idempotency_key (explanation found.1) 0 db
            (explanation-refuses found.1))

  park-Backed :
      (parks : Bool) (deadline : ℕ) (again : M Claimed)
      → Triple Anything again Answers
      → Triple Anything (park v run lease req parks deadline again) Answers
  unfolding park
  park-Backed false deadline again h = explain-Backed
  park-Backed true deadline again h =
      Triple-then _ _ λ at. Triple-if (ltb at deadline) _ _ (λ _. h) (λ _. explain-Backed)

  wait_loop-Backed :
      (parks : Bool) (deadline : ℕ) (wakes : List (M (Unit {0})))
      → Triple Anything (wait_loop v run lease req parks deadline wakes) Answers
  unfolding wait_loop
  wait_loop-Backed parks deadline [] = Triple-bind _ _ attempt-Backed λ c.
      or_else-Backed lease.id req.idempotency_key c _ (park-Backed parks deadline _ explain-Backed)
  wait_loop-Backed parks deadline (wake ∷ wakes) =
      let again = wait_loop-Backed parks deadline wakes in
      Triple-bind _ _ attempt-Backed λ c.
        or_else-Backed lease.id req.idempotency_key c _
          (park-Backed parks deadline _ (Triple-then _ _ (λ _. again)))

  gated-Backed :
      (wakes : List (M (Unit {0}))) (r : Option Reason)
      → gate run lease ≡ r
      → Triple Anything (gated v run lease req wakes r) Answers
  unfolding gated replay_or_search search_mail
  gated-Backed wakes none e = Triple-bind _ _ replay-Backed λ o.
      or_next-Backed lease.id req.idempotency_key _ o
        (Triple-then _ _ λ parks. Triple-then _ _ λ at. wait_loop-Backed parks _ wakes)
  gated-Backed wakes (some r) e =
      Triple-pure _
        λ db _. refusal-Backed lease.id req.idempotency_key r 0 db (gate-refuses run lease r e)

  write-claims : (cs : List Claim) (m : Meta) (e : Event) → Keeps (λ db. db.claims ≡ cs) (write m e)
  unfolding write tx_write append_ledger insert_entry
  write-claims cs m e = Keeps-with_tx _ (Keeps-bind _ _ Keeps-now (λ t. record { at = λ s h. h }))

  settle_claim-Backed :
      (i : Identity) (c : Claimed) → Triple (Answers c) (settle_claim v run lease req i c) Answers
  unfolding settle_claim
  settle_claim-Backed i c =
      Triple-bind _ _
        (Triple-keeps _ (Backed-Keeps lease.id req.idempotency_key c _ (λ cs. write-claims cs _ _))
          (λ _ db p. p))
        (λ _. Triple-pure c (λ db p. p))

lease_by_id-named : (id : ℕ) → Triple Anything (lease_by_id id) (λ l _. l.id ≡ id)
unfolding lease_by_id
lease_by_id-named id =
    Triple-bind _ _
      (Triple-query {Q = λ o db. find (λ l. l.id == id) db.leases ≡ o} _ (λ db _. refl))
      λ row. Triple-or_fail row _ λ l e db p.
        let passes : (l.id == id) ≡ true = find-holds (λ m. m.id == id) l db.leases (p ∙ e) in
        (==_iff l.id id).0 passes

claim-Triple :
    (v : Service) (req : ClaimRequest) (wakes : List (M (Unit {0})))
    → Triple Anything (claim v req wakes) (Backed req.lease_id req.idempotency_key)
unfolding claim
claim-Triple v req wakes = Triple-then _ _ λ _. Triple-then _ _ λ _.
    Triple-bind _ _ (lease_by_id-named req.lease_id) λ lease. Triple-at λ same. Triple-then _ _ λ i.
      Triple-then _ _ λ run.
        subst
          (λ id.
            Triple Anything
              (gated v run lease req wakes (gate run lease) >>= settle_claim v run lease req i)
              (Backed id req.idempotency_key))
          same
          (Triple-bind _ _ (gated-Backed v run lease req wakes (gate run lease) refl)
            (settle_claim-Backed v run lease req i))

-- An answer of `Claim` carries a value only with the reason `claim_ok`. Then the value is not empty,
-- and the claims table has a row with the answer's claim id and message, for the lease and the key of
-- the request, whatever other calls did while the claim was parked.
pub claim-Backed :
    (v : Service) (req : ClaimRequest) (wakes : List (M (Unit {0}))) (s t : Store) (c : Claimed)
    → claim v req wakes s ≡ ok c t
    → Backed req.lease_id req.idempotency_key c t.db
claim-Backed v req wakes s t c = returned _ s t c (claim-Triple v req wakes) tt
