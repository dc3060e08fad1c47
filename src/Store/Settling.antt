-- ===== src/Store/Settling.antt =====
-- The guarded updates of an extraction (internal/store/messages.go).
use authstunt.Prelude.{
  ℕ, ◌≡◌, refl, sym, ◌∙◌, ◌⊎◌, inl, inr, Text, Bool, true, false, List, any, arith,
}
use authstunt.Store.Models.{Message}
use authstunt.Store.Monad.{Db, Store, ok}
use authstunt.Store.Messages.{
  is_pending, pending_with_id, update_messages, settle_extraction, with_extraction, with_failure,
  seal_payload, set_extraction, fail_extraction,
}
use authstunt.Store.Keeps.{keeps_rules}
use authstunt.Store.Triple.{
  Triple, Triple-modify, Triple-query, Triple-keeps, Triple-guard, Triple-bind, Triple-post,
  returned,
}
use authstunt.Store.Endings.{update-none}

-- The message was pending, and is not any more.
abbrev pub Settles : ℕ → List Message → List Message → Type 0
Settles id before later =
    (any (pending_with_id id) before ≡ true) × (any (pending_with_id id) later ≡ false)

module _ (id : ℕ) (b : Bool) where
  abbrev Was : Db → Type 0
  Was db = any (pending_with_id id) db.messages ≡ b

  settle_extraction-Triple :
      (f : Message → Message)
      → ((m : Message) → pending_with_id id m ≡ true → pending_with_id id (f m) ≡ false)
      → Triple Was
          (settle_extraction id f)
          (λ _ db. (b ≡ true) × (any (pending_with_id id) db.messages ≡ false))
  unfolding settle_extraction update_messages
  settle_extraction-Triple f leaves =
      Triple-bind _ _ (Triple-query {Q = λ affected _. affected ≡ b} _ (λ db p. p)) λ affected.
        Triple-bind {R = λ _ _. affected ≡ b} _ _ (Triple-query _ (λ db p. p)) λ known.
          Triple-bind _ _
            (Triple-modify
              {Q = λ _ db. (any (pending_with_id id) db.messages ≡ false) × (affected ≡ b)} _
              (λ db p. (update-none _ f leaves db.messages, p)))
            λ _.
              Triple-bind _ _ (Triple-guard _ _) λ _.
                Triple-post _ (Triple-guard affected _) (λ _ db p. (sym p.1.1.1 ∙ p.0, p.1.1.0))

success-leaves :
    (id : ℕ) (sealed : Text) (m : Message)
    → pending_with_id id m ≡ true
    → pending_with_id id (with_extraction sealed m) ≡ false
unfolding with_extraction is_pending
success-leaves id sealed m h = ground arith

failure-leaves :
    (id : ℕ) (m : Message)
    → pending_with_id id m ≡ true
    → pending_with_id id (with_failure m) ≡ false
unfolding with_failure is_pending
failure-leaves id m h = ground arith

abbrev SettledFrom : ℕ → Bool → Unit {0} → Db → Type 0
SettledFrom id b _ db = (b ≡ true) × (any (pending_with_id id) db.messages ≡ false)

set_extraction-Triple :
    (id : ℕ) (json : Text) (b : Bool)
    → Triple (Was id b) (set_extraction id json) (SettledFrom id b)
unfolding set_extraction seal_payload
set_extraction-Triple id json b =
    Triple-bind _ _ (Triple-keeps _ (search keeps_rules) (λ _ db p. p)) λ _.
      Triple-bind _ _ (Triple-keeps _ (search keeps_rules depth 6) (λ _ db p. p))
        λ sealed. settle_extraction-Triple id b (with_extraction sealed) (success-leaves id sealed)

-- An extraction settles once: where `SetExtraction` or `FailExtraction` returns, the message was
-- pending before the call, and it is not pending after it.
pub extraction-Settles :
    (id : ℕ) (json : Text) (s t : Store)
    → (set_extraction id json s ≡ ok tt t) ⊎ (fail_extraction id s ≡ ok tt t)
    → Settles id s.db.messages t.db.messages
unfolding fail_extraction
extraction-Settles id json s t (inl e) =
    returned _ s t tt (set_extraction-Triple id json (any (pending_with_id id) s.db.messages)) refl
      e
extraction-Settles id json s t (inr e) =
    returned _ s t tt
      (settle_extraction-Triple id (any (pending_with_id id) s.db.messages) with_failure
        (failure-leaves id))
      refl e
