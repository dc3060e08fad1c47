-- ===== src/Personas/ClaimInvariant.antt =====
-- The invariant of the tables and internal/personas/claim.go, with other calls between wakeups.
use authstunt.Prelude.{ℕ, Bool, true, false, Option, none, some, List, [], ◌∷◌, All}
use authstunt.Store.Models.{Run, Lease, Identity, ClaimKind, Reason, Claim}
use authstunt.Store.Monad.{M, Error, pure}
use authstunt.Store.Claims.{Candidate}
use authstunt.Store.Sound.{Sound}
use authstunt.Store.Keeps.{
  Keeps, keeps_rules, Keeps-pure, Keeps-bind, Keeps-if, Keeps-try, Keeps-fail, Keeps-wall_now,
  Keeps-outside,
}
use authstunt.Store.Writes.{write-Sound, record_claim-Sound}
use authstunt.Personas.Config.{Service, Wiring}
use authstunt.Personas.Claim.{
  Claimed, ClaimRequest, gate, value_of, replay_row, none_if_missing, replay, or_next, or_else,
  kind_served, subscribe, refused_record, take_one, take, attempt, explain, park, wait_loop,
  search_mail, settle_claim, replay_or_search, gated, claim,
}
use authstunt.Personas.Invariant.{reads, claim_candidates-Keeps, claim_by_key-Keeps}

-- What the rest of the process does while the claim is parked.
abbrev pub WakesKeep : List (M (Unit {0})) → Type 0
WakesKeep = All (λ wake. Keeps Sound wake)

value_of-Keeps : (message : ℕ) (kind : ClaimKind) → Keeps Sound (value_of message kind)
unfolding value_of
value_of-Keeps message kind = search keeps_rules depth 6

replay_row-Keeps : (kind : ClaimKind) (c : Claim) → Keeps Sound (replay_row kind c)
unfolding replay_row
replay_row-Keeps kind c = search (keeps_rules, value_of-Keeps) depth 6

none_if_missing-Keeps : (e : Error) → Keeps Sound (none_if_missing e)
unfolding none_if_missing
none_if_missing-Keeps Error.not_found = Keeps-pure _
none_if_missing-Keeps e = Keeps-fail _

replay-Keeps : (lease : ℕ) (req : ClaimRequest) → Keeps Sound (replay lease req)
unfolding replay
replay-Keeps lease req =
    Keeps-try _ _ _ (claim_by_key-Keeps lease req.idempotency_key) none_if_missing-Keeps
      (replay_row-Keeps req.kind)

or_next-Keeps :
    (next : M Claimed) (o : Option Claimed) → Keeps Sound next → Keeps Sound (or_next next o)
unfolding or_next
or_next-Keeps next none h = h
or_next-Keeps next (some c) h = Keeps-pure c

or_else-Keeps : (c : Claimed) (next : M Claimed) → Keeps Sound next → Keeps Sound (or_else c next)
unfolding or_else
or_else-Keeps c next h = split c.reason
  where
    split : (o : Option Reason) → Keeps Sound (elim o [ none ↦ next | some r ↦ pure c ])
    split none = h
    split (some r) = Keeps-pure c

subscribe-Keeps : (w : Wiring) (waits : Bool) → Keeps Sound (subscribe w waits)
unfolding subscribe
subscribe-Keeps Wiring.absent waits = Keeps-pure _
subscribe-Keeps Wiring.running waits = Keeps-pure _
subscribe-Keeps Wiring.stopped true = Keeps-fail _
subscribe-Keeps Wiring.stopped false = Keeps-pure _

kind_served-Keeps : (kind : ClaimKind) → Keeps Sound (kind_served kind)
unfolding kind_served
kind_served-Keeps ClaimKind.email_otp = Keeps-pure _
kind_served-Keeps ClaimKind.magic_link = Keeps-pure _
kind_served-Keeps ClaimKind.totp = Keeps-fail _
kind_served-Keeps ClaimKind.unknown = Keeps-fail _

module _ (v : Service) (run : Run) (lease : Lease) (req : ClaimRequest) where
  refused_record-Keeps :
      (next : M Claimed)
      → Keeps Sound next
      → (e : Error) → Keeps Sound (refused_record v run lease req next e)
  unfolding refused_record
  refused_record-Keeps next h Error.claim_window_closed = Keeps-pure _
  refused_record-Keeps next h Error.claim_taken =
      Keeps-bind _ _ (replay-Keeps lease.id req) (λ o. or_next-Keeps next o h)
  refused_record-Keeps next h e = Keeps-fail _

  take-Keeps : (cs : List Candidate) → Keeps Sound (take v run lease req cs)
  unfolding take take_one
  take-Keeps [] = Keeps-pure _
  take-Keeps (c ∷ cs) =
      let next = take-Keeps cs in
      Keeps-bind _ _ (Keeps-outside _) λ value.
        Keeps-if _ _ _ next
          (Keeps-try _ _ _ (record_claim-Sound _) (refused_record-Keeps _ next) (λ a. Keeps-pure _))

  attempt-Keeps : Keeps Sound (attempt v run lease req)
  unfolding attempt
  attempt-Keeps = search (keeps_rules, claim_candidates-Keeps, take-Keeps) depth 6

  explain-Keeps : Keeps Sound (explain v run lease req)
  unfolding explain
  explain-Keeps = search (keeps_rules, claim_candidates-Keeps, take-Keeps, or_else-Keeps) depth 8

  park-Keeps :
      (parks : Bool) (deadline : ℕ) (again : M Claimed)
      → Keeps Sound again
      → Keeps Sound (park v run lease req parks deadline again)
  unfolding park
  park-Keeps false deadline again h = explain-Keeps
  park-Keeps true deadline again h =
      Keeps-bind _ _ Keeps-wall_now (λ at. Keeps-if _ _ _ h explain-Keeps)

  wait_loop-Keeps :
      (parks : Bool) (deadline : ℕ) (wakes : List (M (Unit {0})))
      → WakesKeep wakes
      → Keeps Sound (wait_loop v run lease req parks deadline wakes)
  unfolding wait_loop
  wait_loop-Keeps parks deadline [] h =
      Keeps-bind _ _ attempt-Keeps
        λ c. or_else-Keeps c _ (park-Keeps parks deadline _ explain-Keeps)
  wait_loop-Keeps parks deadline (wake ∷ wakes) h =
      let again = wait_loop-Keeps parks deadline wakes h.1 in
      Keeps-bind _ _ attempt-Keeps
        λ c. or_else-Keeps c _ (park-Keeps parks deadline _ (Keeps-bind _ _ h.0 (λ _. again)))

  search_mail-Keeps :
      (wakes : List (M (Unit {0})))
      → WakesKeep wakes
      → Keeps Sound (search_mail v run lease req wakes)
  unfolding search_mail
  search_mail-Keeps wakes h =
      Keeps-bind _ _ (subscribe-Keeps v.bus _)
        λ parks. Keeps-bind _ _ Keeps-wall_now (λ at. wait_loop-Keeps parks _ wakes h)

  gated-Keeps :
      (wakes : List (M (Unit {0}))) (r : Option Reason)
      → WakesKeep wakes
      → Keeps Sound (gated v run lease req wakes r)
  unfolding gated replay_or_search
  gated-Keeps wakes none h =
      Keeps-bind _ _ (replay-Keeps lease.id req) λ o. or_next-Keeps _ o (search_mail-Keeps wakes h)
  gated-Keeps wakes (some r) h = Keeps-pure _

  settle_claim-Keeps : (i : Identity) (c : Claimed) → Keeps Sound (settle_claim v run lease req i c)
  unfolding settle_claim
  settle_claim-Keeps i c = search (keeps_rules, write-Sound) depth 6

pub claim-Keeps :
    (v : Service) (req : ClaimRequest) (wakes : List (M (Unit {0})))
    → WakesKeep wakes
    → Keeps Sound (claim v req wakes)
unfolding claim
claim-Keeps v req wakes h = Keeps-bind _ _ (kind_served-Keeps req.kind) λ _.
    Keeps-bind _ _ (search keeps_rules) λ _. Keeps-bind _ _ (search reads) λ lease.
      Keeps-bind _ _ (search reads) λ identity. Keeps-bind _ _ (search reads) λ run.
        Keeps-bind _ _ (gated-Keeps v run lease req wakes (gate run lease) h)
          (settle_claim-Keeps v run lease req identity)
