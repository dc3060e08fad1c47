-- ===== src/Store/Attribution.antt =====
-- `BindRecipients` (internal/store/bindings.go) and the intervals of the leases.
use authstunt.Prelude.{
  ℕ, ◌≡◌, refl, sym, ap, subst, ◌∙◌, inl, inr, Text, Bool, true, false, Option, none, some, List,
  [], ◌∷◌, ◌==◌, ◌&&◌, ◌||◌, leb, if◌then◌else◌, any, select, All, or_true_left, or_true_right,
  Bool-cases, ==_iff,
}
use authstunt.Store.Models.{Lease, Identity, Binding}
use authstunt.Store.Monad.{Db, Store, M, ok}
use authstunt.Store.Identities.{normalize}
use authstunt.Store.Leases.{newer, latest, covers, is_for, owner_rows, owner_at}
use authstunt.Store.Bindings.{
  LeaseOwner, mode_of, lease_owner, binding_conflicts, insert_binding, new_binding, bind_owner,
  Bound, bind_unless, bind_to, bind_addr, bind_each, bind_recipients,
}
use authstunt.Store.Keeps.{Keeps, Keeps-now, Keeps-outside}
use authstunt.Store.Triple.{
  Triple, Triple-pure, Triple-query, Triple-keeps, Triple-bind, Triple-with, returned,
}

-- A test that the latest of the rows passes, one of the rows passes.
latest-any :
    (p : Lease → Bool) (l : Lease) (ls : List Lease)
    → latest ls ≡ some l
    → p l ≡ true
    → any p ls ≡ true
unfolding latest any newer
latest-any p l [] h e = cc
latest-any p l (m ∷ ls) h e = split (λ f. latest-any p l ls f e) (latest ls) refl
  where
    pick :
        (rest : latest ls ≡ some l → any p ls ≡ true) (k : Lease)
        → latest ls ≡ some k
        → (b : Bool) → some (if b then m else k) ≡ some l
        → (p m || any p ls) ≡ true
    pick rest k f true g = let same : m ≡ l = cc in or_true_left (p m) _ (rw same e)
    pick rest k f false g = or_true_right _ _ (rest (f ∙ g))

    split :
        (latest ls ≡ some l → any p ls ≡ true)
        → (o : Option Lease) → latest ls ≡ o
        → (p m || any p ls) ≡ true
    split rest none f =
        let g : some m ≡ some l = sym (ap (λ o. some (newer m o)) f) ∙ h in
        let same : m ≡ l = cc in or_true_left (p m) _ (rw same e)
    split rest (some k) f =
        pick rest k f (leb k.acquired_at m.acquired_at) (sym (ap (λ o. some (newer m o)) f) ∙ h)

any-select :
    (p q : Lease → Bool) (ls : List Lease)
    → any p (select q ls) ≡ true
    → any (λ l. q l && p l) ls ≡ true
unfolding any select
any-select p q [] h = cc
any-select p q (l ∷ ls) h = split (any-select p q ls) (q l) h
  where
    split :
        (any p (select q ls) ≡ true → any (λ x. q x && p x) ls ≡ true)
        → (b : Bool) → any p (if b then l ∷ select q ls else select q ls) ≡ true
        → ((b && p l) || any (λ x. q x && p x) ls) ≡ true
    split rest true e = elim (Bool-cases (p l)) [
      | inl here ↦ or_true_left _ _ here
      | inr no_here ↦
          or_true_right _ _ (rest (sym (ap (λ b. b || any p (select q ls)) no_here) ∙ e))
    ]
    split rest false e = rest e

-- The lease of a binding is one of those that cover the instant for the address.
unfoldable pub owns : List Identity → ℕ → Binding → Lease → Bool
owns identities at b l = (is_for identities b.addr l && covers at l) && l.id == b.lease_id

module _ (message received origin : ℕ) (ls : List Lease) (is : List Identity) where
  -- The leases and the identities do not change while a message is bound.
  abbrev pub Same : Db → Type 0
  Same db = (db.leases ≡ ls) × (db.identities ≡ is)

  abbrev pub IsOwned : Binding → Type 0
  IsOwned b = (b.message_id ≡ message) × (any (owns is received b) ls ≡ true)

  abbrev IsOwner : Text → LeaseOwner → Type 0
  IsOwner addr o =
      any (λ l. (is_for is addr l && covers received l) && l.id == o.lease.id) ls ≡ true

  abbrev OwnerIf : Text → Option LeaseOwner → Type 0
  OwnerIf addr none = Unit {0}
  OwnerIf addr (some o) = IsOwner addr o

  abbrev pub Bindings : Bound → Db → Type 0
  Bindings r db = Same db × All IsOwned r.0

  lease_owner-OwnerIf :
      (addr : Text) (db : Db) → Same db → OwnerIf addr (lease_owner addr received db)
  unfolding lease_owner owner_at owner_rows
  lease_owner-OwnerIf addr db same = split (owner_at addr received db) refl
    where
      owner :
          (l : Lease)
          → latest (owner_rows addr received db) ≡ some l
          → any (λ m. (is_for is addr m && covers received m) && m.id == l.id) ls ≡ true
      owner l e =
          subst (λ x. any (λ m. (is_for is addr m && covers received m) && m.id == l.id) x ≡ true)
            same.0
            (subst
              (λ x.
                any (λ m. (is_for x addr m && covers received m) && m.id == l.id) db.leases ≡ true)
              same.1
              (any-select (λ m. m.id == l.id)
                (λ m. is_for db.identities addr m && covers received m) db.leases
                (latest-any (λ m. m.id == l.id) l _ e ((==_iff l.id l.id).1 refl))))

      split :
          (o : Option Lease)
          → owner_at addr received db ≡ o
          → OwnerIf addr (elim o [
            | none ↦ none
            | some l ↦ some (record { lease = l; mode = mode_of db.identities l.identity_id })
          ])
      split none e = tt
      split (some l) e = owner l e

  insert_binding-Same : (b : Binding) → Keeps Same (insert_binding b)
  unfolding insert_binding
  insert_binding-Same b = record {
    at = λ s h. elim (Bool-cases (binding_conflicts b s.db.bindings)) [
      | inl e ↦ rw e h
      | inr e ↦ rw e h
    ];
  }

  bind_owner-Same :
      (addr : Text) (o : LeaseOwner)
      → IsOwner addr o
      → Triple Same (bind_owner message origin addr o) (λ b db. Same db × IsOwned b)
  unfolding bind_owner new_binding owns
  bind_owner-Same addr o h = Triple-bind _ _ (Triple-keeps _ Keeps-now (λ _ db p. p)) λ t.
      Triple-bind _ _ (Triple-keeps _ (insert_binding-Same _) (λ _ db p. p))
        λ _. Triple-pure _ (λ db p. (p, (refl, h)))

  bind_to-Bindings :
      (addr : Text) (rest : M Bound) (o : Option LeaseOwner)
      → OwnerIf addr o
      → Triple Same rest Bindings
      → Triple Same (bind_to message received origin addr rest o) Bindings
  unfolding bind_to
  bind_to-Bindings addr rest none h k = Triple-bind _ _ k (λ r. Triple-pure _ (λ db p. p))
  bind_to-Bindings addr rest (some o) h k = Triple-bind _ _ (bind_owner-Same addr o h) λ b.
      Triple-with (IsOwned b)
        λ owned. Triple-bind _ _ k (λ r. Triple-pure _ (λ db p. (p.0, (owned, p.1))))

  bind_unless-Bindings :
      (b : Bool) (skipped bound : M Bound)
      → Triple Same skipped Bindings
      → Triple Same bound Bindings
      → Triple Same (bind_unless b skipped bound) Bindings
  unfolding bind_unless
  bind_unless-Bindings true skipped bound h k = h
  bind_unless-Bindings false skipped bound h k = k

  bind_addr-Bindings :
      (addr : Text) (rest : M Bound)
      → Triple Same rest Bindings
      → Triple Same (bind_addr message received origin addr rest) Bindings
  unfolding bind_addr
  bind_addr-Bindings addr rest k =
      Triple-bind _ _
        (Triple-query {Q = λ o db. Same db × OwnerIf addr o} (lease_owner addr received)
          (λ db p. (p, lease_owner-OwnerIf addr db p)))
        λ o. Triple-with (OwnerIf addr o) (λ h. bind_to-Bindings addr rest o h k)

  normalize-Same : (raw : Text) → Keeps Same (normalize raw)
  unfolding normalize
  normalize-Same raw = Keeps-outside _

  pub bind_each-Bindings :
      (seen addrs : List Text) → Triple Same (bind_each message received origin seen addrs) Bindings
  unfolding bind_each
  bind_each-Bindings seen [] = Triple-pure _ (λ db p. (p, tt))
  bind_each-Bindings seen (raw ∷ addrs) =
      let skipped = bind_each-Bindings seen addrs in
      Triple-bind _ _ (Triple-keeps _ (normalize-Same raw) (λ _ db p. p)) λ addr.
        bind_unless-Bindings _ _ _ skipped
          (bind_addr-Bindings addr _ (bind_each-Bindings (addr ∷ seen) addrs))

-- Every binding that `BindRecipients` returns is of the message, and is to a lease whose identity has
-- the address of the binding and whose interval covers the instant of arrival; the leases and the
-- identities are left as they were.
pub bind_recipients-IsOwned :
    (message received origin : ℕ) (addrs : List Text) (s t : Store) (r : Bound)
    → bind_recipients message received origin addrs s ≡ ok r t
    → (t.db.leases ≡ s.db.leases)
      × (t.db.identities ≡ s.db.identities)
      × All
          (λ b.
            (b.message_id ≡ message) × (any (owns s.db.identities received b) s.db.leases ≡ true))
          r.0
unfolding bind_recipients
bind_recipients-IsOwned message received origin addrs s t r e =
    let h =
      returned _ s t r
        (bind_each-Bindings message received origin s.db.leases s.db.identities [] addrs)
        (refl, refl) e in
    (h.0.0, h.0.1, h.1)
