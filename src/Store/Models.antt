-- ===== src/Store/Models.antt =====
-- The rows of internal/store/models.go, and the store that holds them (internal/store/store.go).
-- An id is a number, 0 the empty string; a time is a number of nanoseconds since Go's zero time,
-- so 0 is `time.Time{}`. A nullable column is an `Option`. Each table has its newest row first.
use authstunt.Prelude.{ℕ, Text, Bool, true, false, Option, ◌&&◌}

pub data RunState : Type 0 where
  active complete failed expired : RunState

pub data LeaseState : Type 0 where
  held released expired failed : LeaseState

pub data SeedState : Type 0 where
  pending seeded failed skipped : SeedState

-- `unknown` is any string that is no mode.
pub data Mode : Type 0 where
  ephemeral pooled unknown : Mode

pub data Suspect : Type 0 where
  clean cooldown after_release predates_lease origin_unknown : Suspect

-- `unknown` is any string that is no claim kind.
pub data ClaimKind : Type 0 where
  email_otp magic_link totp unknown : ClaimKind

pub data ExtractionState : Type 0 where
  pending success failed : ExtractionState

pub data Reason : Type 0 where
  claim_ok claim_timeout claim_no_binding claim_stale_filtered claim_suspect_binding
        claim_already_claimed claim_expired lease_not_held lease_seed_failed run_not_active
        extraction_failed :
      Reason

-- The two refusals of an acquire.
pub data Refusal : Type 0 where
  pooled_policy_missing pooled_cooldown_below_floor : Refusal

pub record Run : Type 0 where
  pub id : ℕ
  pub project_id : ℕ
  pub token_hash : Text
  pub state : RunState
  pub fail_reason : Text
  pub checkpoint_at : ℕ
  pub started_at : ℕ
  pub expires_at : ℕ
  pub ended_at : Option ℕ

pub record Identity : Type 0 where
  pub id : ℕ
  pub project_id : ℕ
  pub persona_id : ℕ
  pub addr : Text
  pub role : Text
  pub mode : Mode
  pub cooldown_until : Option ℕ
  pub created_at : ℕ

pub record Lease : Type 0 where
  pub id : ℕ
  pub run_id : ℕ
  pub identity_id : ℕ
  pub role : Text
  pub state : LeaseState
  pub seed_state : SeedState
  pub seed_fingerprint : Text
  pub acquired_at : ℕ
  pub expires_at : ℕ
  pub released_at : Option ℕ
  pub in_cooldown : Bool

-- The columns that claims and extraction read; the payloads are sealed, an empty one is NULL.
pub data RecipientKind : Type 0 where
  bcc cc envelope to : RecipientKind

pub record Recipient : Type 0 where
  pub addr : Text
  pub kind : RecipientKind

-- A row of `message_recipients`.
pub record MessageRecipient : Type 0 where
  pub message_id : ℕ
  pub recipient : Recipient

-- A row of `projects`; no digest stands for a project without a bearer.
pub record Project : Type 0 where
  pub id : ℕ
  pub name : Text
  pub created_at : ℕ
  pub bearer_hash : Option Text

-- A row of `allowlist`.
pub record Pattern : Type 0 where
  pub project_id : ℕ
  pub pattern : Text
  pub ord : ℕ

pub record Message : Type 0 where
  pub id : ℕ
  pub project_id : ℕ
  pub text_body : Text
  pub extracted : Text
  pub extraction_state : ExtractionState
  pub quarantined : Bool
  pub received_at : ℕ

pub record Binding : Type 0 where
  pub message_id : ℕ
  pub lease_id : ℕ
  pub run_id : ℕ
  pub identity_id : ℕ
  pub addr : Text
  pub bound_at : ℕ
  pub suspect : Suspect

pub record Claim : Type 0 where
  pub id : ℕ
  pub lease_id : ℕ
  pub run_id : ℕ
  pub kind : ClaimKind
  pub message_id : ℕ
  pub idempotency_key : Text
  pub claimed_at : ℕ
  pub expires_at : ℕ

-- The tests on the enumerations.
unfoldable pub run_is_active : RunState → Bool
run_is_active RunState.active = true
run_is_active _ = false

unfoldable pub lease_is_held : LeaseState → Bool
lease_is_held LeaseState.held = true
lease_is_held _ = false

unfoldable pub seed_is_settled : SeedState → Bool
seed_is_settled SeedState.seeded = true
seed_is_settled SeedState.skipped = true
seed_is_settled _ = false

unfoldable pub is_pooled : Mode → Bool
is_pooled Mode.pooled = true
is_pooled _ = false

unfoldable pub is_clean : Suspect → Bool
is_clean Suspect.clean = true
is_clean _ = false

unfoldable pub same_kind : ClaimKind → ClaimKind → Bool
same_kind ClaimKind.email_otp ClaimKind.email_otp = true
same_kind ClaimKind.magic_link ClaimKind.magic_link = true
same_kind ClaimKind.totp ClaimKind.totp = true
same_kind ClaimKind.unknown ClaimKind.unknown = true
same_kind _ _ = false

unfoldable pub run_active : Run → Bool
unfolding run_is_active
run_active r = run_is_active r.state

unfoldable pub lease_held : Lease → Bool
unfolding lease_is_held
lease_held l = lease_is_held l.state

unfoldable pub lease_claimable : Lease → Bool
unfolding lease_is_held seed_is_settled
lease_claimable l = lease_is_held l.state && seed_is_settled l.seed_state

unfoldable pub binding_clean : Binding → Bool
unfolding is_clean
binding_clean b = is_clean b.suspect
