-- ===== src/History/Unique.antt =====
-- The unique indexes and the timeline of internal/store in the stores that a history reaches.
use authstunt.Prelude.{
  ℕ, ◌≡◌, ◌≤◌, refl, subst, inl, inr, Text, Bool, true, false, List, [], ◌∷◌, length, ◌==◌, ◌&&◌,
  any, select, arith, Bool-cases, and_left, and_right, text_eq→eq, text_eq_refl, ==_iff,
  or_left_false, or_right_false,
}
use authstunt.Store.Models.{Identity, Lease, Claim, ClaimKind, same_kind, lease_held}
use authstunt.Store.Monad.{Outside, Store}
use authstunt.Store.Address.{same_addr, ascii_lower}
use authstunt.Store.Identities.{identity_clash, identity_conflicts}
use authstunt.Store.Leases.{is_for, owner_rows}
use authstunt.Store.Claims.{same_message, same_key, claim_clash}
use authstunt.Store.Intervals.{Ordered, FreeAt, EndedBy, covers_once}
use authstunt.Store.Sound.{Distinct}
use authstunt.Personas.Config.{Service}
use authstunt.Personas.Invariant.{SeederKeeps}
use authstunt.Smtp.Ingest.{Ingest}
use authstunt.History.Reach.{Reaches, reached-Sound}

module _ {A : Type 0} (clash : A → A → Bool) (q : A → Bool)
    (clashes : (x y : A) → q x ≡ true → q y ≡ true → clash x y ≡ true) where
  none_pass : (x : A) (xs : List A) → q x ≡ true → any (clash x) xs ≡ false → select q xs ≡ []
  unfolding any select
  none_pass x [] qx d = refl
  none_pass x (y ∷ xs) qx d = elim (Bool-cases (q y)) [
    | inl e ↦ absurd (contradiction (clash x y) (clashes x y qx e) (or_left_false _ _ d))
    | inr e ↦ rw e (none_pass x xs qx (or_right_false _ _ d))
  ]
    where
      contradiction : (b : Bool) → b ≡ true → b ≡ false → ⊥
      contradiction true t f = cc
      contradiction false t f = cc

  pass_once : (xs : List A) → Distinct (λ x. any (clash x)) xs → length (select q xs) ≤ 1
  unfolding select
  pass_once [] d = omega arith
  pass_once (x ∷ xs) d = elim (Bool-cases (q x)) [
    | inl e ↦ rw (e, none_pass x xs e d.0) (omega arith)
    | inr e ↦ rw e (pass_once xs d.1)
  ]

same_kind-eq :
    (j k kind : ClaimKind)
    → same_kind j kind ≡ true
    → same_kind k kind ≡ true
    → same_kind k j ≡ true
unfolding same_kind
same_kind-eq j k kind h i = ground arith

same_message-clash :
    (message : ℕ) (kind : ClaimKind) (c d : Claim)
    → same_message message kind c ≡ true
    → same_message message kind d ≡ true
    → claim_clash c d ≡ true
unfolding claim_clash same_message
same_message-clash message kind c d h i = grind (arith, same_kind-eq c.kind d.kind kind)

same_key-clash :
    (lease : ℕ) (key : Text) (c d : Claim)
    → same_key lease key c ≡ true
    → same_key lease key d ≡ true
    → claim_clash c d ≡ true
unfolding claim_clash same_key
same_key-clash lease key c d h i =
    let same_c : c.idempotency_key ≡ key = text_eq→eq _ key (and_right _ _ h) in
    let same_d : d.idempotency_key ≡ key = text_eq→eq _ key (and_right _ _ i) in
    rw (same_c, same_d, text_eq_refl key) (ground arith)

same_addr-both :
    (a b addr : Text) → same_addr a addr ≡ true → same_addr b addr ≡ true → same_addr b a ≡ true
unfolding same_addr
same_addr-both a b addr h i =
    let same_a : ascii_lower a ≡ ascii_lower addr = text_eq→eq _ _ h in
    let same_b : ascii_lower b ≡ ascii_lower addr = text_eq→eq _ _ i in
    rw (same_a, same_b) (text_eq_refl (ascii_lower addr))

abbrev named : ℕ → Text → Identity → Bool
named id addr i = i.id == id && same_addr i.addr addr

head_named :
    (x y : ℕ) (addr : Text) (i : Identity) (is : List Identity)
    → named x addr i ≡ true
    → any (identity_clash i) is ≡ false
    → any (named y addr) is ≡ false
unfolding any identity_clash
head_named x y addr i [] h d = refl
head_named x y addr i (j ∷ is) h d =
    let rest = head_named x y addr i is h (or_right_false _ _ d) in
    elim (Bool-cases (same_addr j.addr addr)) [
      | inl e ↦ ground (arith, same_addr-both i.addr j.addr addr)
      | inr e ↦ ground arith
    ]

-- One identity has an address.
one_named :
    (x y : ℕ) (addr : Text) (is : List Identity)
    → Distinct identity_conflicts is
    → any (named x addr) is ≡ true
    → any (named y addr) is ≡ true
    → y ≡ x
unfolding any
one_named x y addr [] d h k = cc
one_named x y addr (i ∷ is) d h k = elim (Bool-cases (named x addr i)) [
  | inl hx ↦ elim (Bool-cases (named y addr i)) [
    | inl hy ↦ ground arith
    | inr ny ↦ let no = head_named x y addr i is hx d.0 in ground arith
  ]
  | inr nx ↦ elim (Bool-cases (named y addr i)) [
    | inl hy ↦ let no = head_named y x addr i is hy d.0 in ground arith
    | inr ny ↦ one_named x y addr is d.1 (ground arith) (ground arith)
  ]
]

held_FreeAt :
    (i t : ℕ) (ls : List Lease)
    → Ordered ls
    → FreeAt i t ls
    → select (λ l. l.identity_id == i && lease_held l) ls ≡ []
unfolding select
held_FreeAt i t [] ord free = refl
held_FreeAt i t (l ∷ ls) ord free = elim (Bool-cases (l.identity_id == i && lease_held l)) [
  | inl e ↦
      let open_ended = ord.0.held_open (and_right _ _ e) in
      let ended = free.0 ((==_iff l.identity_id i).0 (and_left _ _ e)) in
      absurd (subst (EndedBy t) open_ended ended)
  | inr e ↦ rw e (held_FreeAt i t ls ord.2 free.1)
]

held_once :
    (i : ℕ) (ls : List Lease)
    → Ordered ls
    → length (select (λ l. l.identity_id == i && lease_held l) ls) ≤ 1
unfolding select
held_once i [] ord = omega arith
held_once i (l ∷ ls) ord = elim (Bool-cases (l.identity_id == i && lease_held l)) [
  | inl e ↦
      let same = (==_iff l.identity_id i).0 (and_left _ _ e) in
      rw
        (
          e,
          held_FreeAt i l.acquired_at ls ord.2 (subst (λ j. FreeAt j l.acquired_at ls) same ord.1),
        )
        (omega arith)
  | inr e ↦ rw e (held_once i ls ord.2)
]

module _ (v : Service) (g : Ingest) (o : Outside) (s : Store) (keeps : SeederKeeps v.seeder)
    (reached : Reaches v g o s) where
  -- In every store that a history of calls reaches (the seeder keeping it sound), at every instant at
  -- most one lease row owns an address, compared as the column compares it.
  pub owner_rows-once : (addr : Text) (at : ℕ) → length (owner_rows addr at s.db) ≤ 1
  unfolding owner_rows is_for
  owner_rows-once addr at =
      let h = reached-Sound v g keeps reached in
      covers_once (is_for s.db.identities addr)
        (λ l m hl hm.
          one_named l.identity_id m.identity_id addr s.db.identities h.identities_differ hl hm)
        at s.db.leases h.timeline

  -- In every store that a history of calls reaches (the seeder keeping it sound), at most one claim
  -- row is about a given message and kind.
  pub message_claimed-once :
      (message : ℕ) (kind : ClaimKind) → length (select (same_message message kind) s.db.claims) ≤ 1
  message_claimed-once message kind =
      pass_once claim_clash _ (same_message-clash message kind) s.db.claims
        (reached-Sound v g keeps reached).claims_differ

  -- In every store that a history of calls reaches (the seeder keeping it sound), at most one claim
  -- row has a given lease and idempotency key.
  pub key_claimed-once :
      (lease : ℕ) (key : Text) → length (select (same_key lease key) s.db.claims) ≤ 1
  key_claimed-once lease key =
      pass_once claim_clash _ (same_key-clash lease key) s.db.claims
        (reached-Sound v g keeps reached).claims_differ

  -- In every store that a history of calls reaches (the seeder keeping it sound), at most one lease
  -- of an identity is held.
  pub identity_held-once :
      (i : ℕ) → length (select (λ l. l.identity_id == i && lease_held l) s.db.leases) ≤ 1
  identity_held-once i = held_once i s.db.leases (reached-Sound v g keeps reached).timeline
