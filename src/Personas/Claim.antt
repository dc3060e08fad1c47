-- ===== src/Personas/Claim.antt =====
-- Handing a secret over exactly once (internal/personas/claim.go).
use authstunt.Prelude.{
  ℕ, ◌+◌, Text, Bool, true, false, Option, none, some, List, [], ◌∷◌, not, ltb, ◌==◌, if◌then◌else◌,
  find,
}
use authstunt.Ledger.Events.{claim_settled}
use authstunt.Store.Models.{
  Run, Lease, Identity, Message, Claim, ClaimKind, Reason, run_active, lease_held, lease_claimable,
}
use authstunt.Store.Monad.{
  Outside, M, Error, not_found, claim_taken, claim_window_closed, invalid, unsupported_kind,
  bus_stopped, ◌>>=◌, ◌>>◌, pure, fail, guard, query, outside, wall_now, try,
}
use authstunt.Store.Trail.{write}
use authstunt.Store.Identities.{is_empty, identity_by_id}
use authstunt.Store.Leases.{lease_by_id}
use authstunt.Store.Runs.{run_by_id}
use authstunt.Store.Claims.{
  Candidate, CandidateFilter, Rejections, NewClaim, claim_candidates, record_claim, claim_by_key,
}
use authstunt.Personas.Config.{Service, Wiring}
use authstunt.Personas.Acquire.{meta}

pub record Claimed : Type 0 where
  pub reason : Option Reason
  pub claim_id : ℕ
  pub message_id : ℕ
  pub value : Text

pub record ClaimRequest : Type 0 where
  pub lease_id : ℕ
  pub kind : ClaimKind
  pub idempotency_key : Text
  pub timeout : ℕ

-- An answer with no secret, and the answer that there is nothing yet.
abbrev pub refusal : Reason → ℕ → Claimed
refusal r claim = record { reason = some r; claim_id = claim; message_id = 0; value = [] }

abbrev pub nothing_yet : Claimed
nothing_yet = record { reason = none; claim_id = 0; message_id = 0; value = [] }

abbrev pub handed_over : ℕ → ℕ → Text → Claimed
handed_over claim message value = record {
  reason = some Reason.claim_ok;
  claim_id = claim;
  message_id = message;
  value = value;
}

-- `gate`: the refusals that depend on no message.
unfoldable pub gate : Run → Lease → Option Reason
gate run lease =
    if not (run_active run)
    then some Reason.run_not_active
    else if not (lease_held lease)
    then some Reason.lease_not_held
    else if not (lease_claimable lease)
    then some Reason.lease_seed_failed
    else none

unfoldable pub lower_bound : Run → Lease → ℕ
lower_bound run lease =
    if ltb run.checkpoint_at lease.acquired_at then lease.acquired_at else run.checkpoint_at

unfoldable pub end_of_grant : Run → Lease → ℕ
end_of_grant run lease =
    if ltb run.expires_at lease.expires_at then run.expires_at else lease.expires_at

-- `valueFor`: the one field of an extraction that a kind is about.
unfoldable pub field_for : ClaimKind → Option (Text × Text) → Text
field_for kind none = []
field_for ClaimKind.email_otp (some (otp, link)) = otp
field_for ClaimKind.magic_link (some (otp, link)) = link
field_for ClaimKind.totp (some (otp, link)) = []
field_for ClaimKind.unknown (some (otp, link)) = []

unfoldable pub value_for : Outside → Text → ClaimKind → Text
value_for o extracted kind =
    if is_empty extracted then [] else field_for kind (o.decode_extraction extracted)

-- `Store.Message` with `valueOf`: a message that is gone, held back or unreadable has no value.
unfoldable pub opened_value : Outside → ClaimKind → Text → Text
opened_value o kind [] = []
opened_value o kind (b ∷ sealed) = elim (o.open_sealed (b ∷ sealed)) [
  | none ↦ []
  | some extracted ↦ value_for o extracted kind
]

unfoldable pub message_value : Outside → ClaimKind → Option Message → Text
message_value o kind none = []
message_value o kind (some m) = if m.quarantined then [] else elim (o.open_sealed m.text_body) [
  | none ↦ []
  | some body ↦ opened_value o kind m.extracted
]

unfoldable pub value_of : ℕ → ClaimKind → M Text
value_of message kind = do
  row ← query (λ db. find (λ m. m.id == message) db.messages)
  outside (λ o. if message == 0 then [] else message_value o kind row)

unfoldable pub replayed : Claim → Text → Claimed
replayed existing value =
    if is_empty value
    then refusal Reason.extraction_failed existing.id
    else handed_over existing.id existing.message_id value

unfoldable pub replay_row : ClaimKind → Claim → M (Option Claimed)
replay_row kind existing = do
  at ← wall_now
  value ← value_of existing.message_id kind
  pure (
      some (
        if ltb at existing.expires_at
        then replayed existing value
        else refusal Reason.claim_expired existing.id))

unfoldable pub none_if_missing : Error → M (Option Claimed)
none_if_missing not_found = pure none
none_if_missing e = fail e

-- `replay` answers a repeated key.
unfoldable pub replay : ℕ → ClaimRequest → M (Option Claimed)
replay lease req =
    try (claim_by_key lease req.idempotency_key) none_if_missing (replay_row req.kind)

unfoldable pub filter_for : Run → Lease → ClaimRequest → CandidateFilter
filter_for run lease req = record {
  lease_id = lease.id;
  kind = req.kind;
  not_before = lower_bound run lease;
  limit = 0;
}

-- The order in which `explain` reports.
unfoldable pub explanation : Rejections → Reason
explanation r =
    if ltb 0 r.suspect
    then Reason.claim_suspect_binding
    else if ltb 0 r.already_claimed
    then Reason.claim_already_claimed
    else if ltb 0 r.stale
    then Reason.claim_stale_filtered
    else if ltb 0 r.extraction_fail
    then Reason.extraction_failed
    else if r.bindings == 0
    then Reason.claim_no_binding
    else Reason.claim_timeout

unfoldable pub or_next : M Claimed → Option Claimed → M Claimed
or_next next none = next
or_next next (some c) = pure c

unfoldable pub or_else : Claimed → M Claimed → M Claimed
or_else c next = elim c.reason [ none ↦ next | some r ↦ pure c ]

unfoldable pub kind_served : ClaimKind → M (Unit {0})
kind_served ClaimKind.email_otp = pure tt
kind_served ClaimKind.magic_link = pure tt
kind_served ClaimKind.totp = fail unsupported_kind
kind_served ClaimKind.unknown = fail invalid

-- `SubscribeMatch`, where the claim can wait.
unfoldable pub subscribe : Wiring → Bool → M Bool
subscribe Wiring.absent waits = pure false
subscribe Wiring.running waits = pure waits
subscribe Wiring.stopped true = fail bus_stopped
subscribe Wiring.stopped false = pure false

-- Every settled claim has a reason: the loop ends by `explain`.
unfoldable pub settled_reason : Option Reason → Reason
settled_reason none = Reason.claim_timeout
settled_reason (some r) = r

module _ (v : Service) (run : Run) (lease : Lease) (req : ClaimRequest) where
  unfoldable pub claim_for : Candidate → NewClaim
  claim_for c = record {
    lease_id = lease.id;
    run_id = run.id;
    kind = req.kind;
    message_id = c.message_id;
    idempotency_key = req.idempotency_key;
    ttl = v.claim_ttl;
    not_after = end_of_grant run lease;
  }

  unfoldable pub refused_record : M Claimed → Error → M Claimed
  refused_record next claim_window_closed = pure (refusal Reason.lease_not_held 0)
  refused_record next claim_taken = do recorded ← replay lease.id req; or_next next recorded
  refused_record next e = fail e

  unfoldable pub take_one : Candidate → Text → M Claimed → M Claimed
  take_one c value next =
      try (record_claim (claim_for c)) (refused_record next)
        (λ claim. pure (handed_over claim.id c.message_id value))

  unfoldable pub take : List Candidate → M Claimed
  take [] = pure nothing_yet
  take (c ∷ cs) =
      let next = take cs in
      do
        value ← outside (λ o. value_for o c.extracted req.kind)
        if is_empty value then next else take_one c value next

  unfoldable pub attempt : M Claimed
  attempt = do found ← claim_candidates (filter_for run lease req); take found.0

  unfoldable pub explain : M Claimed
  explain = do
    found ← claim_candidates (filter_for run lease req)
    late ← take found.0
    or_else late (pure (refusal (explanation found.1) 0))

  -- One round of waiting: until the deadline, a wakeup leads to another attempt.
  unfoldable pub park : Bool → ℕ → M Claimed → M Claimed
  park false deadline again = explain
  park true deadline again = do at ← wall_now; if ltb at deadline then again else explain

  -- The loop; `wakes` is what the rest of the process does before each wakeup, and the wait after
  -- the last one ends with the deadline.
  unfoldable pub wait_loop : Bool → ℕ → List (M (Unit {0})) → M Claimed
  wait_loop parks deadline [] = do result ← attempt; or_else result (park parks deadline explain)
  wait_loop parks deadline (wake ∷ wakes) =
      let again = wait_loop parks deadline wakes in
      do result ← attempt; or_else result (park parks deadline (wake >> again))

  -- A claim waits if there is a bus and the request has a timeout.
  unfoldable pub search_mail : List (M (Unit {0})) → M Claimed
  search_mail wakes = do
    parks ← subscribe v.bus (ltb 0 req.timeout)
    at ← wall_now
    wait_loop parks (at + req.timeout) wakes

  unfoldable pub settle_claim : Identity → Claimed → M Claimed
  settle_claim i c = do
    write (meta v lease.run_id i)
        (claim_settled lease.id c.claim_id req.kind c.message_id (settled_reason c.reason) i.addr)
    pure c

  unfoldable pub replay_or_search : List (M (Unit {0})) → M Claimed
  replay_or_search wakes = do recorded ← replay lease.id req; or_next (search_mail wakes) recorded

  unfoldable pub gated : List (M (Unit {0})) → Option Reason → M Claimed
  gated wakes none = replay_or_search wakes
  gated wakes (some r) = pure (refusal r 0)

module _ (v : Service) where
  unfoldable pub claim : ClaimRequest → List (M (Unit {0})) → M Claimed
  claim req wakes = do
    kind_served req.kind
    guard (not (is_empty req.idempotency_key)) invalid
    lease ← lease_by_id req.lease_id
    identity ← identity_by_id lease.identity_id
    run ← run_by_id lease.run_id
    answer ← gated v run lease req wakes (gate run lease)
    settle_claim v run lease req identity answer
