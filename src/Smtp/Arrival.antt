-- ===== src/Smtp/Arrival.antt =====
-- What `Deliver` commits (internal/smtp/ingest.go): the message, its bindings, and the events that
-- describe how it arrived, together or not at all.
use authstunt.Prelude.{ℕ, ◌≡◌, Text, true, List, [], ◌∷◌, ◌++◌, map, any, All}
use authstunt.Ledger.Events.{
  Event, mail_received, mail_quarantined, mail_bound, mail_unbound, detail,
}
use authstunt.Store.Models.{Message, Binding, ExtractionState}
use authstunt.Store.Monad.{Db, Store}
use authstunt.Store.Bindings.{Bound}
use authstunt.Store.Triple.{Triple}
use authstunt.Store.Evidence.{Evidence, Tables, tables, push, At}
use authstunt.Store.Attribution.{owns}
use authstunt.Smtp.Ingest.{Ingest, Delivery, holds_back, project_meta}

-- An event of the project, as the ledger holds it.
noted : Ingest → ℕ → Event → Evidence
noted g run e = (project_meta g run, detail e)

abbrev listed : {A : Type 0} → List A → Evidence → List Evidence
listed [] e = []
listed (a ∷ as') e = e ∷ []

-- The events of an arrival, oldest first: `off` is what the allowlist refuses, `r` what was bound and
-- what was not.
unfoldable pub arrival : Ingest → ℕ → Text → List Text → Bound → List Evidence
unfolding noted
arrival g message from off r =
    noted g 0 (mail_received message from)
    ∷ (listed off (noted g 0 (mail_quarantined message off))
        ++ (map
              (λ b.
                noted g b.run_id
                  (mail_bound b.message_id b.lease_id b.identity_id b.addr b.suspect))
              r.0
            ++ listed r.1 (noted g 0 (mail_unbound message r.1))))

module _ (g : Ingest) where
  abbrev With : Tables → List Evidence → Db → Type 0
  With ts es = At (record ts { trail = push es ts.trail })

  bound_event : Binding → Evidence
  bound_event b =
      noted g b.run_id (mail_bound b.message_id b.lease_id b.identity_id b.addr b.suspect)

  abbrev AllOwned : Tables → Message → Bound → Type 0
  AllOwned ts m r =
      All (λ b. (b.message_id ≡ m.id) × (any (owns ts.identities m.received_at b) ts.leases ≡ true))
        r.0

  -- The events after the arrival itself.
  abbrev bindings_noted : Message → Bound → List Evidence
  bindings_noted m r = map bound_event r.0 ++ listed r.1 (noted g 0 (mail_unbound m.id r.1))

-- What is in the tables once a message has been delivered.
pub record Arrived (g : Ingest) (d : Delivery) (off : List Text) (before : Tables) (m : Message)
    (db : Db) : Type 0 where
  -- What was bound, and the addresses that no lease owned.
  result : Bound
  written : tables db ≡ record before {
    messages = m ∷ before.messages;
    bindings = push result.0 before.bindings;
    trail = push (arrival g m.id d.from off result) before.trail;
  }
  in_project : m.project_id ≡ g.project_id
  held_back : m.quarantined ≡ holds_back off
  pending : m.extraction_state ≡ ExtractionState.pending
  owned :
      All
        (λ b.
          (b.message_id ≡ m.id)
          × (any (owns before.identities m.received_at b) before.leases ≡ true))
        result.0
