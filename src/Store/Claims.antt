-- ===== src/Store/Claims.antt =====
-- internal/store/claims.go: the candidates of a claim, and the claims that were granted.
use authstunt.Prelude.{
  ℕ, ◌+◌, Text, Bool, Option, none, some, List, [], ◌∷◌, not, ltb, ◌==◌, ◌&&◌, ◌||◌, if◌then◌else◌,
  any, find, select, sort_by, take, text_eq,
}
use authstunt.Store.Models.{
  Message, Binding, Claim, ClaimKind, ExtractionState, same_kind, binding_clean,
}
use authstunt.Store.Monad.{
  Db, M, ok, err, not_found, claim_taken, claim_window_closed, invalid, ◌>>=◌, ◌>>◌, pure, guard,
  or_fail, query, outside, now, new_id,
}
use authstunt.Store.Identities.{is_empty}

pub record Candidate : Type 0 where
  pub message_id : ℕ
  pub received_at : ℕ
  pub extracted : Text

pub record CandidateFilter : Type 0 where
  pub lease_id : ℕ
  pub kind : ClaimKind
  pub not_before : ℕ
  pub limit : ℕ

pub record Rejections : Type 0 where
  pub suspect : ℕ
  pub already_claimed : ℕ
  pub stale : ℕ
  pub extraction_fail : ℕ
  pub pending : ℕ
  pub bindings : ℕ

abbrev pub no_rejections : Rejections
no_rejections = record {
  suspect = 0;
  already_claimed = 0;
  stale = 0;
  extraction_fail = 0;
  pending = 0;
  bindings = 0;
}

-- A row of the join of bindings and messages.
pub record Row : Type 0 where
  pub message : Message
  pub binding : Binding

-- What the loop does with a row.
pub data Verdict : Type 0 where
  quarantined suspect already_claimed stale extraction_fail pending : Verdict
  usable : Text → Verdict

unfoldable pub is_claimed : List Claim → ClaimKind → ℕ → Bool
is_claimed claims kind message = any (λ c. c.message_id == message && same_kind c.kind kind) claims

unfoldable pub by_state : ExtractionState → Option Text → Verdict
by_state ExtractionState.failed opened = Verdict.extraction_fail
by_state ExtractionState.pending opened = Verdict.pending
by_state ExtractionState.success none = Verdict.extraction_fail
by_state ExtractionState.success (some json) = Verdict.usable json

unfoldable pub judge : (Text → Option Text) → List Claim → CandidateFilter → Row → Verdict
judge open_sealed claims f row =
    if row.message.quarantined
    then Verdict.quarantined
    else if not (binding_clean row.binding)
    then Verdict.suspect
    else if is_claimed claims f.kind row.message.id
    then Verdict.already_claimed
    else if not (f.not_before == 0) && ltb row.message.received_at f.not_before
    then Verdict.stale
    else by_state row.message.extraction_state (open_sealed row.message.extracted)

unfoldable pub tally : Verdict → Rejections → Rejections
tally Verdict.quarantined r = record r { bindings = r.bindings + 1 }
tally Verdict.suspect r = record r { suspect = r.suspect + 1; bindings = r.bindings + 1 }
tally Verdict.already_claimed r = record r {
  already_claimed = r.already_claimed + 1;
  bindings = r.bindings + 1;
}
tally Verdict.stale r = record r { stale = r.stale + 1; bindings = r.bindings + 1 }
tally Verdict.extraction_fail r = record r {
  extraction_fail = r.extraction_fail + 1;
  bindings = r.bindings + 1;
}
tally Verdict.pending r = record r { pending = r.pending + 1; bindings = r.bindings + 1 }
tally (Verdict.usable json) r = record r { bindings = r.bindings + 1 }

unfoldable pub keep : Verdict → Row → List Candidate → List Candidate
keep (Verdict.usable json) row cs =
    record { message_id = row.message.id; received_at = row.message.received_at; extracted = json }
    ∷ cs
keep _ row cs = cs

module _ (verdict : Row → Verdict) where
  unfoldable pub candidates_of : List Row → List Candidate
  candidates_of [] = []
  candidates_of (row ∷ rows) = keep (verdict row) row (candidates_of rows)

  unfoldable pub rejections_of : List Row → Rejections → Rejections
  rejections_of [] r = r
  rejections_of (row ∷ rows) r = rejections_of rows (tally (verdict row) r)

abbrev pub sift : (Row → Verdict) → List Row → List Candidate × Rejections
sift verdict rows = (candidates_of verdict rows, rejections_of verdict rows no_rejections)

unfoldable pub join_message : List Message → Binding → List Row → List Row
join_message messages b rows = elim (find (λ m. m.id == b.message_id) messages) [
  | none ↦ rows
  | some m ↦ record { message = m; binding = b } ∷ rows
]

unfoldable pub join_rows : List Message → ℕ → List Binding → List Row
join_rows messages lease [] = []
join_rows messages lease (b ∷ bs) =
    let rest = join_rows messages lease bs in
    if b.lease_id == lease then join_message messages b rest else rest

-- `ORDER BY m.received_at, m.id`.
unfoldable pub received_before : Row → Row → Bool
received_before x y =
    ltb x.message.received_at y.message.received_at
    || (x.message.received_at == y.message.received_at && ltb x.message.id y.message.id)

unfoldable pub limit_rows : ℕ → List Row → List Row
limit_rows limit rows = if ltb 0 limit then take limit rows else rows

unfoldable pub rows_of : CandidateFilter → Db → List Row
rows_of f db =
    limit_rows f.limit (sort_by received_before (join_rows db.messages f.lease_id db.bindings))

unfoldable pub claim_candidates : CandidateFilter → M (List Candidate × Rejections)
claim_candidates f = do
  guard (not (f.lease_id == 0)) invalid
  open_sealed ← outside (λ o. o.open_sealed)
  query (λ db. sift (judge open_sealed db.claims f) (rows_of f db))

pub record NewClaim : Type 0 where
  pub lease_id : ℕ
  pub run_id : ℕ
  pub kind : ClaimKind
  pub message_id : ℕ
  pub idempotency_key : Text
  pub ttl : ℕ
  pub not_after : ℕ

-- The primary key, `claims_idem` and `claims_one_per_message_kind`.
unfoldable pub same_key : ℕ → Text → Claim → Bool
same_key lease key c = c.lease_id == lease && text_eq c.idempotency_key key

unfoldable pub same_message : ℕ → ClaimKind → Claim → Bool
same_message message kind c =
    not (message == 0) && (c.message_id == message && same_kind c.kind kind)

unfoldable pub claim_clash : Claim → Claim → Bool
claim_clash c d =
    d.id == c.id || (same_key c.lease_id c.idempotency_key d || same_message c.message_id c.kind d)

abbrev pub claim_conflicts : Claim → List Claim → Bool
claim_conflicts c = any (claim_clash c)

unfoldable pub insert_claim : Claim → M (Unit {0})
insert_claim c s =
    if claim_conflicts c s.db.claims
    then err claim_taken s
    else ok tt (record s { db = record s.db { claims = c ∷ s.db.claims } })

-- `now + TTL`, capped at the end of the grant; a cap of 0 is none.
unfoldable pub claim_expiry : NewClaim → ℕ → ℕ
claim_expiry n at =
    if not (n.not_after == 0) && ltb n.not_after (at + n.ttl) then n.not_after else at + n.ttl

unfoldable pub new_claim : NewClaim → ℕ → ℕ → Claim
new_claim n id at = record {
  id = id;
  lease_id = n.lease_id;
  run_id = n.run_id;
  kind = n.kind;
  message_id = n.message_id;
  idempotency_key = n.idempotency_key;
  claimed_at = at;
  expires_at = claim_expiry n at;
}

unfoldable pub record_claim : NewClaim → M Claim
record_claim n = do
  guard (not (n.lease_id == 0 || (n.run_id == 0 || is_empty n.idempotency_key))) invalid
  guard (ltb 0 n.ttl) invalid
  at ← now
  guard (ltb at (claim_expiry n at)) claim_window_closed
  id ← new_id
  insert_claim (new_claim n id at)
  pure (new_claim n id at)

unfoldable pub claim_by_key : ℕ → Text → M Claim
claim_by_key lease key = do
  row ← query (λ db. find (same_key lease key) db.claims)
  or_fail row not_found

-- `ORDER BY claimed_at, id`.
unfoldable pub claimed_before : Claim → Claim → Bool
claimed_before c d =
    ltb c.claimed_at d.claimed_at || (c.claimed_at == d.claimed_at && ltb c.id d.id)

unfoldable pub list_run_claims : ℕ → M (List Claim)
list_run_claims run = query (λ db. sort_by claimed_before (select (λ c. c.run_id == run) db.claims))
