-- ===== src/Ledger/Events.antt =====
-- internal/ledger/events.go. The stored detail is the event itself, its addresses redacted; the
-- encoding as JSON is not modelled.
use authstunt.Prelude.{
  ℕ, Text, Option, none, some, List, [], ◌∷◌, ◌++◌, map, length, take, ltb, ◌==◌, if◌then◌else◌,
}
use authstunt.Store.Models.{Mode, SeedState, Suspect, ClaimKind, Reason, Refusal}

-- `strings.LastIndex(s, "@")` with the two parts around it.
unfoldable pub cut_at : Text → Option (Text × Text)
cut_at [] = none
cut_at (c ∷ s) = elim (cut_at s) [
  | some (local, domain) ↦ some (c ∷ local, domain)
  | none ↦ if c == b'@' then some ([], s) else none
]

abbrev pub redacted_text : Text
redacted_text = b'[' ∷ b'r' ∷ b'e' ∷ b'd' ∷ b'a' ∷ b'c' ∷ b't' ∷ b'e' ∷ b'd' ∷ b']' ∷ []

abbrev pub ellipsis : Text
ellipsis = b'.' ∷ b'.' ∷ b'.' ∷ []

-- `Addr.Redacted` past its cut.
unfoldable pub redact_parts : Text → Text → Text
redact_parts [] domain = redacted_text
redact_parts (c ∷ local) domain =
    (if ltb 3 (length (c ∷ local)) then take 3 (c ∷ local) ++ ellipsis else c ∷ local)
    ++ (b'@' ∷ domain)

unfoldable pub redacted : Text → Text
unfolding cut_at redact_parts
redacted addr = elim (cut_at addr) [
  | none ↦ redacted_text
  | some (local, domain) ↦ redact_parts local domain
]

-- The vocabulary of the trail. An address stands in it as its redacted form.
pub data Event : Type 0 where
  mail_received : (message_id : ℕ) (envelope_from : Text) → Event
  mail_quarantined : (message_id : ℕ) (recipients : List Text) → Event
  extraction_failed : (message_id : ℕ) (reason : Text) → Event
  lease_acquired : (lease_id identity_id : ℕ) (role : Text) (mode : Mode) (addr : Text) → Event
  lease_refused : (role : Text) (mode : Mode) (reason : Refusal) → Event
  lease_released : (lease_id identity_id : ℕ) (addr : Text) → Event
  seed_settled :
      (lease_id identity_id : ℕ) (state : SeedState) (addr fingerprint reason : Text) → Event
  mail_bound : (message_id lease_id identity_id : ℕ) (addr : Text) (suspect : Suspect) → Event
  mail_unbound : (message_id : ℕ) (recipients : List Text) → Event
  claim_settled :
      (lease_id claim_id : ℕ) (kind : ClaimKind) (message_id : ℕ) (reason : Reason) (addr : Text)
      → Event

-- `MarshalJSON` of the address types.
unfoldable pub detail : Event → Event
unfolding redacted
detail (mail_received m from) = mail_received m (redacted from)
detail (mail_quarantined m to) = mail_quarantined m (map redacted to)
detail (extraction_failed m r) = extraction_failed m r
detail (lease_acquired l i role mode addr) = lease_acquired l i role mode (redacted addr)
detail (lease_refused role mode r) = lease_refused role mode r
detail (lease_released l i addr) = lease_released l i (redacted addr)
detail (seed_settled l i st addr f r) = seed_settled l i st (redacted addr) f r
detail (mail_bound m l i addr s) = mail_bound m l i (redacted addr) s
detail (mail_unbound m to) = mail_unbound m (map redacted to)
detail (claim_settled l c k m r addr) = claim_settled l c k m r (redacted addr)

-- A row of the ledger. Every event of the model is written by the system actor.
pub record Entry : Type 0 where
  pub project_id : ℕ
  pub run_id : ℕ
  pub persona_id : ℕ
  pub ts : ℕ
  pub event : Event
