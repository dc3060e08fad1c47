-- ===== src/Smtp/Ingest.antt =====
-- internal/smtp/ingest.go: `Deliver` from the parsed message to its commit. MIME parsing, the blobs
-- and the queue of the extraction workers are not modelled.
use authstunt.Prelude.{ℕ, Text, Bool, true, false, List, none, [], ◌∷◌, ◌++◌, if◌then◌else◌}
use authstunt.Ledger.Events.{mail_received, mail_quarantined, mail_bound, mail_unbound}
use authstunt.Store.Models.{Message, Binding, Recipient, RecipientKind}
use authstunt.Store.Monad.{M, ◌>>=◌, ◌>>◌, pure, outside, with_tx}
use authstunt.Store.Address.{allowlist_matches}
use authstunt.Store.Trail.{Meta, tx_write}
use authstunt.Store.Bindings.{bind_recipients}
use authstunt.Store.Messages.{NewMessage, tx_insert_message}

-- A delivery with what parsing recovered; an origin of 0 is a missing Date header.
pub record Delivery : Type 0 where
  pub from : Text
  pub recipients : List Text
  pub to : List Text
  pub cc : List Text
  pub received_at : ℕ
  pub text : Text
  pub origin : ℕ

pub record Ingest : Type 0 where
  pub project_id : ℕ
  pub allowlist : List Text

-- `quarantine`: the envelope addresses outside the allowlist.
unfoldable pub off_list : (Text → Bool) → List Text → List Text
off_list owned [] = []
off_list owned (a ∷ as') = let rest = off_list owned as' in if owned a then rest else a ∷ rest

abbrev pub holds_back : List Text → Bool
holds_back [] = false
holds_back (a ∷ off) = true

unfoldable pub project_meta : Ingest → ℕ → Meta
project_meta g run = record { project_id = g.project_id; run_id = run; persona_id = 0 }

unfoldable pub audit_quarantine : Ingest → ℕ → List Text → M (Unit {0})
audit_quarantine g message [] = pure tt
audit_quarantine g message (a ∷ off) =
    tx_write (project_meta g 0) (mail_quarantined message (a ∷ off))

unfoldable pub audit : Ingest → ℕ → Text → List Text → M (Unit {0})
audit g message from off = do
  tx_write (project_meta g 0) (mail_received message from)
  audit_quarantine g message off

unfoldable pub audit_bound : Ingest → List Binding → M (Unit {0})
audit_bound g [] = pure tt
audit_bound g (b ∷ bs) = do
  tx_write (project_meta g b.run_id)
      (mail_bound b.message_id b.lease_id b.identity_id b.addr b.suspect)
  audit_bound g bs

unfoldable pub audit_unbound : Ingest → ℕ → List Text → M (Unit {0})
audit_unbound g message [] = pure tt
audit_unbound g message (a ∷ unbound) =
    tx_write (project_meta g 0) (mail_unbound message (a ∷ unbound))

unfoldable pub bind : Ingest → Message → Delivery → M (Unit {0})
bind g m d = do
  bound ← bind_recipients m.id m.received_at d.origin d.recipients
  audit_bound g bound.0
  audit_unbound g m.id bound.1

unfoldable pub with_kind : RecipientKind → List Text → List Recipient
with_kind kind [] = []
with_kind kind (a ∷ as') = record { addr = a; kind = kind } ∷ with_kind kind as'

unfoldable pub recipients : List Text → List Text → List Text → List Recipient
unfolding with_kind
recipients envelope to cc =
    with_kind RecipientKind.envelope envelope
    ++ (with_kind RecipientKind.to to ++ with_kind RecipientKind.cc cc)

unfoldable pub new_message : Ingest → Delivery → List Text → NewMessage
new_message g d off = record {
  id = none;
  project_id = g.project_id;
  text_body = d.text;
  extracted_json = [];
  quarantined = holds_back off;
  received_at = d.received_at;
  recipients = recipients d.recipients d.to d.cc;
}

unfoldable pub deliver_body : Ingest → Delivery → List Text → M Message
deliver_body g d off = do
  m ← tx_insert_message (new_message g d off)
  audit g m.id d.from off
  bind g m d
  pure m

unfoldable pub deliver : Ingest → Delivery → M Message
deliver g d = do
  off ← outside (λ o. off_list (allowlist_matches o.to_ascii g.allowlist) d.recipients)
  with_tx (deliver_body g d off)
