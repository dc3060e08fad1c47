-- ===== src/Tests/Mail.antt =====
-- A mail that is delivered, and one that fails.
use authstunt.Prelude.{
  inl, ℕ, ◌*◌, ◌≡◌, refl, Text, Bool, true, false, Option, none, some, List, [], ◌∷◌, any, All,
}
use authstunt.Store.Models.{Message}
use authstunt.Store.Monad.{Db}
use authstunt.Store.Listing.{MessageFilter, cursor_for, all_rows}
use authstunt.Store.Listing.Pages.{all_rows-next}
use authstunt.Store.Messages.{set_extraction}
use authstunt.Store.Settling.{Settles, extraction-Settles}
use authstunt.Store.Models.{ExtractionState, Binding}
use authstunt.Store.Monad.{Store, Error, Outcome, after, constraint}
use authstunt.Store.Bindings.{second, Bound, bind_recipients}
use authstunt.Store.Attribution.{owns, bind_recipients-IsOwned}
use authstunt.Tests.Fixtures.{db, store, message, code, binding, addr}

abbrev unbound : Store
unbound = record store { db = record db { bindings = [] } }

abbrev bound : Bound
bound = (record binding { bound_at = 100 * second } ∷ [], (b'?' ∷ []) ∷ [])

bind_recipients-IsOwned_example :
    ((after (
        bind_recipients 4
          (30 * second)
          (30 * second)
          (addr ∷ (b'?' ∷ []) ∷ addr ∷ [])
          unbound)).db.leases
      ≡ unbound.db.leases)
    × ((after (
          bind_recipients 4
            (30 * second)
            (30 * second)
            (addr ∷ (b'?' ∷ []) ∷ addr ∷ [])
            unbound)).db.identities
        ≡ unbound.db.identities)
    × All
        (λ b.
          (b.message_id ≡ 4)
          × (any (owns unbound.db.identities (30 * second) b) unbound.db.leases ≡ true))
        bound.0
unfolding bind_recipients authstunt.Store.Bindings.bind_each authstunt.Store.Monad.◌>>=◌
    authstunt.Store.Identities.normalize authstunt.Store.Bindings.bind_unless
    authstunt.Store.Identities.is_empty authstunt.Store.Address.normalize_address any
    authstunt.Store.Bindings.bind_addr authstunt.Store.Bindings.bind_to
    authstunt.Store.Bindings.lease_owner authstunt.Store.Leases.owner_at
    authstunt.Store.Leases.latest authstunt.Store.Leases.owner_rows authstunt.Prelude.select
    authstunt.Store.Leases.is_for authstunt.Store.Address.same_addr authstunt.Ledger.Events.cut_at
    authstunt.Prelude.find authstunt.Prelude.text_eq authstunt.Store.Address.ascii_lower
    authstunt.Store.Address.canonical_domain authstunt.Store.Address.is_space
    authstunt.Store.Address.lower_byte authstunt.Store.Address.normal_domain
    authstunt.Store.Address.trim_dot authstunt.Store.Address.trim_left
    authstunt.Store.Address.trim_right authstunt.Store.Address.trim_space
    authstunt.Store.Bindings.bind_owner authstunt.Store.Bindings.binding_clash
    authstunt.Store.Bindings.insert_binding authstunt.Store.Bindings.is_released
    authstunt.Store.Bindings.mode_of authstunt.Store.Bindings.new_binding
    authstunt.Store.Bindings.suspicion authstunt.Store.Bindings.truncate_second
    authstunt.Store.Leases.covers authstunt.Store.Leases.newer authstunt.Store.Models.is_pooled
    authstunt.Store.Monad.continue authstunt.Store.Monad.next_instant authstunt.Store.Monad.now
    authstunt.Store.Monad.outside authstunt.Store.Monad.pure authstunt.Store.Monad.query
bind_recipients-IsOwned_example =
    bind_recipients-IsOwned 4 (30 * second) (30 * second) (addr ∷ (b'?' ∷ []) ∷ addr ∷ []) unbound
      (after
        (bind_recipients 4 (30 * second) (30 * second) (addr ∷ (b'?' ∷ []) ∷ addr ∷ []) unbound))
      bound refl

abbrev pending : Store
pending = record store {
  db = record db {
    messages = record message { extracted = []; extraction_state = ExtractionState.pending } ∷ [];
  };
}

extraction-Settles_example :
    Settles 4 pending.db.messages (after (set_extraction 4 code pending)).db.messages
unfolding set_extraction authstunt.Store.Monad.◌>>=◌ authstunt.Store.Identities.is_empty
    authstunt.Store.Messages.seal_payload authstunt.Store.Messages.settle_extraction
    authstunt.Store.Messages.update_messages any authstunt.Store.Messages.is_pending
extraction-Settles_example =
    extraction-Settles 4 code pending (after (set_extraction 4 code pending)) (inl refl)

abbrev everything : MessageFilter
everything = record {
  project_id = 9;
  to = [];
  since = 0;
  cursor = record { received_at = 0; id = 0 };
  limit = 0;
  include_quarantined = false;
}

abbrev earlier : Message
earlier = record message { id = 3 }

abbrev both : Db
both = record db { messages = earlier ∷ message ∷ [] }

all_rows-next_example :
    all_rows (λ t. t) both (record everything { cursor = cursor_for message }) ≡ earlier ∷ []
unfolding all_rows authstunt.Store.Identities.is_empty
all_rows-next_example =
    all_rows-next (λ t. t) both everything message [] (earlier ∷ []) ((refl, tt), (tt, tt)) refl
      refl
