-- ===== src/Personas/Backed.antt =====
-- The claims table behind an answer of `Claim` (internal/personas/claim.go).
use authstunt.Prelude.{
  sym, ap, ◌∙◌, ℕ, ◌≡◌, ◌≢◌, refl, ◌⊎◌, inl, inr, Text, Bool, true, false, Option, none, some, List,
  [], ◌∷◌, find, any, ◌==◌, ◌&&◌, if◌then◌else◌, Bool-cases, arith, ltb,
}
use authstunt.Store.Models.{Claim, ClaimKind, Reason}
use authstunt.Store.Monad.{Db, M, Error, pure}
use authstunt.Store.Identities.{is_empty}
use authstunt.Store.Keeps.{Keeps, keeps_rules}
use authstunt.Store.Claims.{same_key, claim_by_key}
use authstunt.Store.Triple.{
  Triple, Anything, Triple-pure, Triple-fail, Triple-or_fail, Triple-query, Triple-keeps,
  Triple-bind,
}
use authstunt.Personas.Claim.{
  Claimed, refusal, handed_over, value_of, replayed, replay_row, none_if_missing, or_next, or_else,
}

-- The row that a granted claim stands on.
unfoldable pub grants : ℕ → Text → Claimed → Claim → Bool
unfolding same_key
grants lease key c row =
    row.id == c.claim_id && (row.message_id == c.message_id && same_key lease key row)

-- An answer carries a value only with `claim_ok`, and then a row for the lease and the key names its
-- claim and its message.
abbrev pub Backed : ℕ → Text → Claimed → Db → Type 0
Backed lease key c db =
    ((c.value ≡ []) × (c.reason ≢ some Reason.claim_ok))
    ⊎ ((c.reason ≡ some Reason.claim_ok)
        × (is_empty c.value ≡ false)
        × (any (grants lease key c) db.claims ≡ true))

module _ (lease : ℕ) (key : Text) where
  pub refusal-Backed :
      (r : Reason) (id : ℕ) (db : Db) → r ≢ Reason.claim_ok → Backed lease key (refusal r id) db
  refusal-Backed r id db h = inl (refl, λ e. h cc)

  -- The claims table is all that an answer stands on.
  pub Backed-Keeps :
      {A : Type 0} (c : Claimed) (m : M A)
      → ((cs : List Claim) → Keeps (λ db. db.claims ≡ cs) m)
      → Keeps (Backed lease key c) m
  Backed-Keeps c m h = record { at = λ s b. rw ((h s.db.claims).at s refl) b }

  found-grants :
      (cs : List Claim) (c : Claim) (value : Text)
      → find (same_key lease key) cs ≡ some c
      → any (grants lease key (handed_over c.id c.message_id value)) cs ≡ true
  unfolding find any grants
  found-grants [] c value h = cc
  found-grants (d ∷ cs) c value h = elim (Bool-cases (same_key lease key d)) [
    | inl e ↦ grind arith
    | inr e ↦
        let rest =
          found-grants cs c value
            (sym (ap (λ b. if b then some d else find (same_key lease key) cs) e) ∙ h) in
        ground arith
  ]

  abbrev pub Found : Claim → Db → Type 0
  Found c db = find (same_key lease key) db.claims ≡ some c

  pub claim_by_key-Found : Triple Anything (claim_by_key lease key) Found
  unfolding claim_by_key
  claim_by_key-Found =
      Triple-bind _ _
        (Triple-query {Q = λ o db. find (same_key lease key) db.claims ≡ o} _ (λ db _. refl))
        (λ o. Triple-or_fail o _ (λ c e db p. p ∙ e))

  abbrev pub BackedIf : Option Claimed → Db → Type 0
  BackedIf none db = Unit {0}
  BackedIf (some c) db = Backed lease key c db

  replayed-Backed :
      (c : Claim) (value : Text) (db : Db) → Found c db → Backed lease key (replayed c value) db
  unfolding replayed
  replayed-Backed c value db h = elim (Bool-cases (is_empty value)) [
    | inl e ↦ rw e (refusal-Backed Reason.extraction_failed c.id db (λ x. cc))
    | inr e ↦ rw e (inr (refl, e, found-grants db.claims c value h))
  ]

  value_of-Found : (c : Claim) (kind : ClaimKind) → Keeps (Found c) (value_of c.message_id kind)
  unfolding value_of
  value_of-Found c kind = search keeps_rules depth 6

  pub replay_row-Backed :
      (kind : ClaimKind) (c : Claim) → Triple (Found c) (replay_row kind c) BackedIf
  unfolding replay_row
  replay_row-Backed kind c =
      Triple-bind _ _ (Triple-keeps _ (search keeps_rules) (λ _ db p. p)) λ at.
        Triple-bind _ _ (Triple-keeps _ (value_of-Found c kind) (λ _ db p. p))
          λ value. Triple-pure _ (λ db p. answer at value db p)
    where
      answer :
          (at : ℕ) (value : Text) (db : Db)
          → Found c db
          → Backed lease key
              (if ltb at c.expires_at then replayed c value else refusal Reason.claim_expired c.id)
              db
      answer at value db p = elim (Bool-cases (ltb at c.expires_at)) [
        | inl e ↦ rw e (replayed-Backed c value db p)
        | inr e ↦ rw e (refusal-Backed Reason.claim_expired c.id db (λ x. cc))
      ]

  pub none_if_missing-Backed : (e : Error) → Triple Anything (none_if_missing e) BackedIf
  unfolding none_if_missing
  none_if_missing-Backed Error.not_found = Triple-pure none (λ db _. tt)
  none_if_missing-Backed e = Triple-fail _

  pub or_next-Backed :
      (next : M Claimed) (o : Option Claimed)
      → Triple Anything next (Backed lease key)
      → Triple (BackedIf o) (or_next next o) (Backed lease key)
  unfolding or_next
  or_next-Backed next none h = h
  or_next-Backed next (some c) h = Triple-pure c (λ db p. p)

  pub or_else-Backed :
      (c : Claimed) (next : M Claimed)
      → Triple Anything next (Backed lease key)
      → Triple (Backed lease key c) (or_else c next) (Backed lease key)
  unfolding or_else
  or_else-Backed c next h = split c.reason
    where
      split :
          (o : Option Reason)
          → Triple
              (Backed lease key c)
              (elim o [ none ↦ next | some r ↦ pure c ])
              (Backed lease key)
      split none = record { at = λ s _. h.at s tt }
      split (some r) = Triple-pure c (λ db p. p)
