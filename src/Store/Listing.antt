-- ===== src/Store/Listing.antt =====
-- The reads of internal/store/messages.go, and the cursor of internal/store/cursor.go. A row is shown with
-- its payloads opened.
pub mod Pages
use authstunt.Prelude.{
  ℕ, Text, Bool, true, false, Option, none, some, List, [], ◌∷◌, not, map, any, find, select, take,
  sort_by, ltb, ◌==◌, ◌&&◌, ◌||◌, if◌then◌else◌,
}
use authstunt.Store.Models.{Message, Recipient, RecipientKind, MessageRecipient, ExtractionState}
use authstunt.Store.Monad.{
  Db, M, ok, not_found, unreadable_message, ◌>>=◌, ◌>>◌, pure, guard, or_fail, query, outside,
  modify, with_tx,
}
use authstunt.Store.Address.{ascii_lower, same_addr, normalize_address}
use authstunt.Store.Identities.{is_empty}
use authstunt.Store.Messages.{is_pending, kind_rank}

-- `MessageCursor`; no id and no time are its zero.
pub record MessageCursor : Type 0 where
  pub received_at : ℕ
  pub id : ℕ

unfoldable pub cursor_for : Message → MessageCursor
cursor_for m = record { received_at = m.received_at; id = m.id }

unfoldable pub cursor_is_zero : MessageCursor → Bool
cursor_is_zero c = c.id == 0 && c.received_at == 0

-- A limit of 0 is none.
pub record MessageFilter : Type 0 where
  pub project_id : ℕ
  pub to : Text
  pub since : ℕ
  pub cursor : MessageCursor
  pub limit : ℕ
  pub include_quarantined : Bool

-- A message as it is read.
pub record Shown : Type 0 where
  pub row : Message
  pub text_body : Text
  pub extracted : Text
  pub unreadable : Bool
  pub recipients : List Recipient

-- `scanMessageRow`: either payload failing hides both.
unfoldable pub open_extraction : (Text → Option Text) → Text → Option Text
open_extraction open_sealed [] = some []
open_extraction open_sealed (c ∷ s) = open_sealed (c ∷ s)

unfoldable pub unreadable_row : Message → List Recipient → Shown
unreadable_row m rs = record {
  row = m;
  text_body = [];
  extracted = [];
  unreadable = true;
  recipients = rs;
}

unfoldable pub show_row : (Text → Option Text) → Message → List Recipient → Shown
unfolding open_extraction unreadable_row
show_row open_sealed m rs = elim (open_sealed m.text_body) [
  | none ↦ unreadable_row m rs
  | some body ↦ elim (open_extraction open_sealed m.extracted) [
    | none ↦ unreadable_row m rs
    | some extraction ↦ record {
      row = m;
      text_body = body;
      extracted = extraction;
      unreadable = false;
      recipients = rs;
    }
  ]
]

unfoldable pub text_before : Text → Text → Bool
text_before [] [] = false
text_before [] (d ∷ t) = true
text_before (c ∷ s) [] = false
text_before (c ∷ s) (d ∷ t) = ltb c d || (c == d && text_before s t)

-- `ORDER BY kind, addr`, where the column of the address ignores the case.
unfoldable pub recipient_before : MessageRecipient → MessageRecipient → Bool
unfolding kind_rank text_before ascii_lower
recipient_before r q =
    ltb (kind_rank r.recipient.kind) (kind_rank q.recipient.kind)
    || (kind_rank r.recipient.kind == kind_rank q.recipient.kind
        && text_before (ascii_lower r.recipient.addr) (ascii_lower q.recipient.addr))

unfoldable pub recipients_of : Db → ℕ → List Recipient
unfolding select sort_by recipient_before
recipients_of db id =
    map (λ r. r.recipient)
      (sort_by recipient_before (select (λ r. r.message_id == id) db.recipients))

unfoldable pub read_message : ℕ → M Shown
unfolding show_row
read_message id = do
  row ← query (λ db. find (λ m. m.id == id) db.messages)
  m ← or_fail row not_found
  rs ← query (λ db. recipients_of db id)
  outside (λ o. show_row o.open_sealed m rs)

unfoldable pub unreadable_guard : Shown → M Shown
unreadable_guard shown = do guard (not shown.unreadable) unreadable_message; pure shown

-- `Message`, which does not see quarantined mail.
unfoldable pub message : ℕ → M Shown
message id = do
  shown ← read_message id
  guard (not shown.row.quarantined) not_found
  unreadable_guard shown

unfoldable pub message_including_quarantined : ℕ → M Shown
message_including_quarantined id = do shown ← read_message id; unreadable_guard shown

unfoldable pub is_envelope : RecipientKind → Bool
is_envelope RecipientKind.envelope = true
is_envelope _ = false

unfoldable pub newest_first : Message → Message → Bool
newest_first m n =
    ltb n.received_at m.received_at || (m.received_at == n.received_at && ltb n.id m.id)

-- `(received_at, id) < (?, ?)`.
unfoldable pub below_cursor : MessageCursor → Message → Bool
below_cursor c m =
    ltb m.received_at c.received_at || (m.received_at == c.received_at && ltb m.id c.id)

-- The conditions other than the cursor's.
unfoldable pub wanted : (Text → Text) → Db → MessageFilter → Message → Bool
unfolding any is_envelope same_addr
wanted normal db f m =
    (f.project_id == 0 || m.project_id == f.project_id)
    && ((f.include_quarantined || not m.quarantined)
        && ((f.since == 0 || ltb f.since m.received_at)
            && (is_empty f.to
                || any
                    (λ r.
                      r.message_id == m.id
                      && (is_envelope r.recipient.kind && same_addr r.recipient.addr (normal f.to)))
                    db.recipients)))

unfoldable pub selected : (Text → Text) → Db → MessageFilter → Message → Bool
unfolding wanted below_cursor cursor_is_zero
selected normal db f m =
    (cursor_is_zero f.cursor || below_cursor f.cursor m) && wanted normal db f m

-- Every row that the filter selects, newest first.
unfoldable pub all_rows : (Text → Text) → Db → MessageFilter → List Message
unfolding select sort_by selected newest_first
all_rows normal db f = sort_by newest_first (select (selected normal db f) db.messages)

unfoldable pub limit_to : ℕ → List Message → List Message
limit_to limit rows = if ltb 0 limit then take limit rows else rows

unfoldable pub show_all : (Text → Option Text) → Db → List Message → List Shown
unfolding show_row recipients_of
show_all open_sealed db [] = []
show_all open_sealed db (m ∷ ms) =
    show_row open_sealed m (recipients_of db m.id) ∷ show_all open_sealed db ms

unfoldable pub list_messages : MessageFilter → M (List Shown)
unfolding all_rows limit_to show_all
list_messages f = do
  db ← query (λ db. db)
  outside (λ o.
      show_all o.open_sealed db (limit_to f.limit (all_rows (normalize_address o.to_ascii) db f)))

unfoldable pub oldest_first : Message → Message → Bool
oldest_first m n =
    ltb m.received_at n.received_at || (m.received_at == n.received_at && ltb m.id n.id)

unfoldable pub list_pending_extractions : ℕ → M (List Shown)
unfolding select sort_by oldest_first limit_to show_all
list_pending_extractions limit = do
  db ← query (λ db. db)
  outside (λ o. show_all o.open_sealed db (
      limit_to limit
        (sort_by oldest_first (select (λ m. is_pending m.extraction_state) db.messages))))

-- The rows that refer to the message go with it.
unfoldable pub without_message : ℕ → Db → Db
unfolding select
without_message id db = record db {
  messages = select (λ m. not (m.id == id)) db.messages;
  recipients = select (λ r. not (r.message_id == id)) db.recipients;
  bindings = select (λ b. not (b.message_id == id)) db.bindings;
  claims = select (λ c. not (c.message_id == id)) db.claims;
}

unfoldable pub tx_delete_message : ℕ → M (Unit {0})
unfolding without_message
tx_delete_message id = do
  known ← query (λ db. any (λ m. m.id == id) db.messages)
  guard known not_found
  modify (without_message id)

-- The references of the blobs, which it returns, are left out.
unfoldable pub delete_message : ℕ → M (Unit {0})
delete_message id = with_tx (tx_delete_message id)
