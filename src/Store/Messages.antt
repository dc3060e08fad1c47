-- ===== src/Store/Messages.antt =====
-- internal/store/messages.go: a message is stored pending, and its extraction settles once. The
-- columns that no claim reads (sender, subject, channel, blobs) are left out.
use authstunt.Prelude.{
  ℕ, Text, Bool, true, false, Option, none, List, some, [], ◌∷◌, not, ◌==◌, ◌&&◌, if◌then◌else◌,
  any, update_where,
}
use authstunt.Store.Models.{Message, ExtractionState, Recipient, RecipientKind, MessageRecipient}
use authstunt.Store.Address.{same_addr, normalize_address}
use authstunt.Store.Monad.{
  M, ok, err, not_found, invalid, constraint, extraction_settled, ◌>>=◌, ◌>>◌, pure, guard, or_fail,
  query, outside, modify, now, new_id,
}
use authstunt.Store.Identities.{is_empty}

-- The caller may choose the id.
pub record NewMessage : Type 0 where
  pub id : Option ℕ
  pub project_id : ℕ
  pub text_body : Text
  pub extracted_json : Text
  pub quarantined : Bool
  pub received_at : ℕ
  pub recipients : List Recipient

-- The state is derived from the payload.
unfoldable pub first_state : Text → ExtractionState
first_state [] = ExtractionState.pending
first_state (c ∷ s) = ExtractionState.success

unfoldable pub seal_payload : Text → M Text
seal_payload json = do
  sealed ← outside (λ o. if is_empty json then some [] else o.seal json)
  or_fail sealed constraint

unfoldable pub seal_body : Text → M Text
seal_body body = do sealed ← outside (λ o. o.seal body); or_fail sealed constraint

-- The zero time is replaced by the store's clock.
unfoldable pub received_or_now : ℕ → M ℕ
received_or_now t = if t == 0 then now else pure t

unfoldable pub insert_row : Message → M (Unit {0})
insert_row m s =
    if any (λ n. n.id == m.id) s.db.messages
    then err constraint s
    else ok tt (record s { db = record s.db { messages = m ∷ s.db.messages } })

unfoldable pub message_row : NewMessage → ℕ → ℕ → Text → Text → Message
message_row n id received body extracted = record {
  id = id;
  project_id = n.project_id;
  text_body = body;
  extracted = extracted;
  extraction_state = first_state n.extracted_json;
  quarantined = n.quarantined;
  received_at = received;
}

-- In the order of the texts that the source holds.
unfoldable pub kind_rank : RecipientKind → ℕ
kind_rank RecipientKind.bcc = 0
kind_rank RecipientKind.cc = 1
kind_rank RecipientKind.envelope = 2
kind_rank RecipientKind.to = 3

-- The primary key, whose address compares without case.
unfoldable pub same_recipient : ℕ → Recipient → MessageRecipient → Bool
unfolding kind_rank same_addr
same_recipient id r row =
    row.message_id == id
    && (kind_rank row.recipient.kind == kind_rank r.kind && same_addr row.recipient.addr r.addr)

-- `ON CONFLICT DO NOTHING`.
unfoldable pub add_recipients :
    (Text → Text) → ℕ → List Recipient → List MessageRecipient → List MessageRecipient
unfolding same_recipient any
add_recipients normal id [] rows = rows
add_recipients normal id (r ∷ rs) rows =
    let r' : Recipient = record r { addr = normal r.addr } in
    add_recipients normal id rs (
      if any (same_recipient id r') rows
      then rows
      else record { message_id = id; recipient = r' } ∷ rows)

unfoldable pub insert_recipients : ℕ → List Recipient → M (Unit {0})
unfolding add_recipients normalize_address
insert_recipients id rs s = ok tt (record s {
  db = record s.db {
    recipients = add_recipients (normalize_address s.outside.to_ascii) id rs s.db.recipients;
  };
})

unfoldable pub id_or_new : Option ℕ → M ℕ
id_or_new none = new_id
id_or_new (some id) = pure id

unfoldable pub tx_insert_message : NewMessage → M Message
tx_insert_message n = do
  id ← id_or_new n.id
  received ← received_or_now n.received_at
  body ← seal_body n.text_body
  extracted ← seal_payload n.extracted_json
  insert_row (message_row n id received body extracted)
  insert_recipients id n.recipients
  pure (message_row n id received body extracted)

unfoldable pub is_pending : ExtractionState → Bool
is_pending ExtractionState.pending = true
is_pending _ = false

abbrev pub pending_with_id : ℕ → Message → Bool
pending_with_id id m = m.id == id && is_pending m.extraction_state

unfoldable pub update_messages : (Message → Bool) → (Message → Message) → M (Unit {0})
update_messages p f = modify (λ db. record db { messages = update_where p f db.messages })

-- A guarded update from pending; its failure says whether the row is missing or settled.
unfoldable pub settle_extraction : ℕ → (Message → Message) → M (Unit {0})
settle_extraction id f = do
  affected ← query (λ db. any (pending_with_id id) db.messages)
  known ← query (λ db. any (λ m. m.id == id) db.messages)
  update_messages (pending_with_id id) f
  guard (if affected then true else known) not_found
  guard affected extraction_settled

unfoldable pub with_extraction : Text → Message → Message
with_extraction sealed m = record m {
  extracted = sealed;
  extraction_state = ExtractionState.success;
}

unfoldable pub with_failure : Message → Message
with_failure m = record m { extraction_state = ExtractionState.failed }

unfoldable pub set_extraction : ℕ → Text → M (Unit {0})
set_extraction id json = do
  guard (not (is_empty json)) invalid
  sealed ← seal_payload json
  settle_extraction id (with_extraction sealed)

unfoldable pub fail_extraction : ℕ → M (Unit {0})
fail_extraction id = settle_extraction id with_failure
