-- ===== src/Smtp/Writes.antt =====
-- What the insertion of a message (internal/store/messages.go) and the binding of its recipients
-- (internal/store/bindings.go) write.
use authstunt.Prelude.{
  ℕ, ◌≡◌, refl, ap, inl, inr, Text, Bool, true, false, Option, none, some, List, [], ◌∷◌, any, ◌==◌,
  Bool-cases,
}
use authstunt.Store.Models.{Message, Binding, Recipient}
use authstunt.Store.Monad.{Db, M}
use authstunt.Store.Bindings.{
  LeaseOwner, lease_owner, binding_conflicts, insert_binding, bind_owner, Bound, bind_unless,
  bind_to, bind_addr, bind_each,
}
use authstunt.Store.Identities.{normalize}
use authstunt.Store.Messages.{
  NewMessage, seal_payload, seal_body, received_or_now, id_or_new, insert_row, insert_recipients,
  tx_insert_message, message_row, first_state,
}
use authstunt.Store.Keeps.{Keeps, keeps_rules, Keeps-now, Keeps-outside, Keeps-new_id, Keeps-pure}
use authstunt.Store.Triple.{Triple, Triple-pure, Triple-query, Triple-keeps, Triple-bind}
use authstunt.Store.Evidence.{Tables, tables, trail, push, At}

-- A row as its insertion asks for it.
abbrev pub IsRow : NewMessage → Message → Type 0
IsRow n m =
    (m.project_id ≡ n.project_id)
    × (m.quarantined ≡ n.quarantined)
    × (m.extraction_state ≡ first_state n.extracted_json)

insert_binding-At :
    (ts : Tables) (b : Binding)
    → Triple (At ts) (insert_binding b) (λ _. At (record ts { bindings = b ∷ ts.bindings }))
unfolding insert_binding tables trail
insert_binding-At ts b = record {
  at = λ s p. elim (Bool-cases (binding_conflicts b s.db.bindings)) [
    | inl e ↦ rw e tt
    | inr e ↦ rw e (ap (λ (x : Tables). record x { bindings = b ∷ x.bindings }) p)
  ];
}

abbrev pub Pushed : Tables → Bound → Db → Type 0
Pushed ts r = At (record ts { bindings = push r.0 ts.bindings })

module _ (message received origin : ℕ) where
  bind_owner-At :
      (ts : Tables) (addr : Text) (o : LeaseOwner)
      → Triple
          (At ts)
          (bind_owner message origin addr o)
          (λ b. At (record ts { bindings = b ∷ ts.bindings }))
  unfolding bind_owner
  bind_owner-At ts addr o =
      Triple-bind _ _ (Triple-keeps _ Keeps-now (λ _ db p. p))
        λ t. Triple-bind _ _ (insert_binding-At ts _) (λ _. Triple-pure _ (λ db p. p))

  bind_to-At :
      (ts : Tables) (addr : Text) (rest : M Bound) (o : Option LeaseOwner)
      → ((us : Tables) → Triple (At us) rest (Pushed us))
      → Triple (At ts) (bind_to message received origin addr rest o) (Pushed ts)
  unfolding bind_to push
  bind_to-At ts addr rest none k = Triple-bind _ _ (k ts) (λ r. Triple-pure _ (λ db p. p))
  bind_to-At ts addr rest (some o) k = Triple-bind _ _ (bind_owner-At ts addr o) λ b.
      Triple-bind _ _ (k (record ts { bindings = b ∷ ts.bindings }))
        (λ r. Triple-pure _ (λ db p. p))

  bind_unless-At :
      (ts : Tables) (b : Bool) (skipped bound : M Bound)
      → Triple (At ts) skipped (Pushed ts)
      → Triple (At ts) bound (Pushed ts)
      → Triple (At ts) (bind_unless b skipped bound) (Pushed ts)
  unfolding bind_unless
  bind_unless-At ts true skipped bound h k = h
  bind_unless-At ts false skipped bound h k = k

  bind_addr-At :
      (ts : Tables) (addr : Text) (rest : M Bound)
      → ((us : Tables) → Triple (At us) rest (Pushed us))
      → Triple (At ts) (bind_addr message received origin addr rest) (Pushed ts)
  unfolding bind_addr
  bind_addr-At ts addr rest k =
      Triple-bind _ _ (Triple-query {Q = λ _. At ts} (lease_owner addr received) (λ db p. p))
        (λ o. bind_to-At ts addr rest o k)

  normalize-At : (ts : Tables) (raw : Text) → Keeps (At ts) (normalize raw)
  unfolding normalize
  normalize-At ts raw = Keeps-outside _

  pub bind_each-At :
      (seen addrs : List Text) (ts : Tables)
      → Triple (At ts) (bind_each message received origin seen addrs) (Pushed ts)
  unfolding bind_each push
  bind_each-At seen [] ts = Triple-pure _ (λ db p. p)
  bind_each-At seen (raw ∷ addrs) ts =
      let skipped = bind_each-At seen addrs ts in
      Triple-bind _ _ (Triple-keeps _ (normalize-At ts raw) (λ _ db p. p)) λ addr.
        bind_unless-At ts _ _ _ skipped (bind_addr-At ts addr _ (bind_each-At (addr ∷ seen) addrs))

module _ (ts : Tables) where
  insert_row-At :
      (m : Message)
      → Triple (At ts) (insert_row m) (λ _. At (record ts { messages = m ∷ ts.messages }))
  unfolding insert_row tables trail
  insert_row-At m = record {
    at = λ s p. elim (Bool-cases (any (λ n. n.id == m.id) s.db.messages)) [
      | inl e ↦ rw e tt
      | inr e ↦ rw e (ap (λ (x : Tables). record x { messages = m ∷ x.messages }) p)
    ];
  }

  insert_recipients-At : (id : ℕ) (rs : List Recipient) → Keeps (At ts) (insert_recipients id rs)
  unfolding insert_recipients tables trail
  insert_recipients-At id rs = record { at = λ s p. p }

  seal_payload-At : (json : Text) → Keeps (At ts) (seal_payload json)
  unfolding seal_payload
  seal_payload-At json = search keeps_rules depth 6

  seal_body-At : (body : Text) → Keeps (At ts) (seal_body body)
  unfolding seal_body
  seal_body-At body = search keeps_rules depth 6

  received_or_now-At : (t : ℕ) → Keeps (At ts) (received_or_now t)
  unfolding received_or_now
  received_or_now-At t = search keeps_rules depth 6

  id_or_new-At : (o : Option ℕ) → Keeps (At ts) (id_or_new o)
  unfolding id_or_new
  id_or_new-At none = Keeps-new_id
  id_or_new-At (some id) = Keeps-pure _

pub tx_insert_message-At :
    (ts : Tables) (n : NewMessage)
    → Triple
        (At ts)
        (tx_insert_message n)
        (λ m db. At (record ts { messages = m ∷ ts.messages }) db × IsRow n m)
unfolding tx_insert_message message_row
tx_insert_message-At ts n = Triple-bind _ _ (Triple-keeps _ (id_or_new-At ts _) (λ _ db p. p)) λ id.
    Triple-bind _ _ (Triple-keeps _ (received_or_now-At ts _) (λ _ db p. p)) λ received.
      Triple-bind _ _ (Triple-keeps _ (seal_body-At ts _) (λ _ db p. p)) λ body.
        Triple-bind _ _ (Triple-keeps _ (seal_payload-At ts _) (λ _ db p. p)) λ extracted.
          Triple-bind _ _ (insert_row-At ts _) λ _.
            Triple-bind _ _
              (Triple-keeps _ (insert_recipients-At (record ts { messages = _ ∷ ts.messages }) id _)
                (λ _ db p. p))
              (λ _. Triple-pure _ (λ db p. (p, (refl, refl, refl))))
