-- ===== src/Smtp/Invariant.antt =====
-- The invariant of the tables and internal/smtp/ingest.go, with the extraction of
-- internal/store/messages.go.
use authstunt.Prelude.{
  ℕ, Text, Bool, List, Option, none, some, [], ◌∷◌, inl, inr, any, ◌==◌, Bool-cases,
}
use authstunt.Store.Models.{Message, Binding, Recipient}
use authstunt.Store.Messages.{
  NewMessage, seal_payload, seal_body, received_or_now, id_or_new, insert_row, insert_recipients,
  tx_insert_message, update_messages, settle_extraction, set_extraction, fail_extraction,
}
use authstunt.Store.Sound.{Sound, Sound-messages, Sound-recipients}
use authstunt.Store.Keeps.{Keeps, keeps_rules, Keeps-pure, Keeps-new_id, Keeps-bind, Keeps-modify}
use authstunt.Store.Writes.{tx_write-Sound, bind_recipients-Sound}
use authstunt.Smtp.Ingest.{
  Ingest, Delivery, audit_quarantine, audit, audit_bound, audit_unbound, bind, deliver_body,
  deliver,
}

insert_row-Keeps : (m : Message) → Keeps Sound (insert_row m)
unfolding insert_row
insert_row-Keeps m = record {
  at = λ s h. elim (Bool-cases (any (λ n. n.id == m.id) s.db.messages)) [
    | inl taken ↦ rw taken h
    | inr free ↦ rw free (Sound-messages h _)
  ];
}

insert_recipients-Keeps : (id : ℕ) (rs : List Recipient) → Keeps Sound (insert_recipients id rs)
unfolding insert_recipients
insert_recipients-Keeps id rs = record { at = λ s h. Sound-recipients h _ }

seal_payload-Keeps : (json : Text) → Keeps Sound (seal_payload json)
unfolding seal_payload
seal_payload-Keeps json = search keeps_rules depth 6

seal_body-Keeps : (body : Text) → Keeps Sound (seal_body body)
unfolding seal_body
seal_body-Keeps body = search keeps_rules depth 6

received_or_now-Keeps : (t : ℕ) → Keeps Sound (received_or_now t)
unfolding received_or_now
received_or_now-Keeps t = search keeps_rules depth 6

id_or_new-Keeps : (o : Option ℕ) → Keeps Sound (id_or_new o)
unfolding id_or_new
id_or_new-Keeps none = Keeps-new_id
id_or_new-Keeps (some id) = Keeps-pure _

tx_insert_message-Keeps : (n : NewMessage) → Keeps Sound (tx_insert_message n)
unfolding tx_insert_message
tx_insert_message-Keeps n =
    search
      (
        keeps_rules, id_or_new-Keeps, received_or_now-Keeps, seal_body-Keeps, seal_payload-Keeps,
        insert_row-Keeps, insert_recipients-Keeps,
      )
      depth 16

update_messages-Keeps :
    (p : Message → Bool) (f : Message → Message) → Keeps Sound (update_messages p f)
unfolding update_messages
update_messages-Keeps p f = Keeps-modify _ (λ db h. Sound-messages h _)

settle_extraction-Keeps : (id : ℕ) (f : Message → Message) → Keeps Sound (settle_extraction id f)
unfolding settle_extraction
settle_extraction-Keeps id f = search (keeps_rules, update_messages-Keeps) depth 12

pub set_extraction-Keeps : (id : ℕ) (json : Text) → Keeps Sound (set_extraction id json)
unfolding set_extraction
set_extraction-Keeps id json =
    search (keeps_rules, seal_payload-Keeps, settle_extraction-Keeps) depth 8

pub fail_extraction-Keeps : (id : ℕ) → Keeps Sound (fail_extraction id)
unfolding fail_extraction
fail_extraction-Keeps id = settle_extraction-Keeps id _

audit-Keeps :
    (g : Ingest) (message : ℕ) (from : Text) (off : List Text)
    → Keeps Sound (audit g message from off)
unfolding audit audit_quarantine
audit-Keeps g message from [] = search (keeps_rules, tx_write-Sound) depth 6
audit-Keeps g message from (a ∷ off) = search (keeps_rules, tx_write-Sound) depth 6

audit_bound-Keeps : (g : Ingest) (bs : List Binding) → Keeps Sound (audit_bound g bs)
unfolding audit_bound
audit_bound-Keeps g [] = Keeps-pure _
audit_bound-Keeps g (b ∷ bs) = Keeps-bind _ _ (tx_write-Sound _ _) (λ _. audit_bound-Keeps g bs)

audit_unbound-Keeps :
    (g : Ingest) (message : ℕ) (unbound : List Text) → Keeps Sound (audit_unbound g message unbound)
unfolding audit_unbound
audit_unbound-Keeps g message [] = Keeps-pure _
audit_unbound-Keeps g message (a ∷ unbound) = tx_write-Sound _ _

bind-Keeps : (g : Ingest) (m : Message) (d : Delivery) → Keeps Sound (bind g m d)
unfolding bind
bind-Keeps g m d =
    search (keeps_rules, bind_recipients-Sound, audit_bound-Keeps, audit_unbound-Keeps) depth 8

pub deliver-Keeps : (g : Ingest) (d : Delivery) → Keeps Sound (deliver g d)
unfolding deliver deliver_body
deliver-Keeps g d = search (keeps_rules, tx_insert_message-Keeps, audit-Keeps, bind-Keeps) depth 10
