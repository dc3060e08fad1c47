-- ===== src/Store/Candidates.antt =====
-- The candidates of a claim against an independent description of them.
use authstunt.Prelude.{
  ℕ, ◌≡◌, ◌≤◌, refl, sym, ap, ◌∙◌, inl, inr, Text, Bool, true, false, Option, none, some, List, [],
  ◌∷◌, not, ltb, ◌==◌, ◌&&◌, if◌then◌else◌, any, find, take, All, Bool-cases, arith, ==_iff,
  text_eq, text_eq_refl, sort_by-All, or_true_left, or_true_right, find-holds, take-All,
}
use authstunt.Store.Models.{Message, Binding, ExtractionState, binding_clean}
use authstunt.Store.Monad.{Db}
use authstunt.Store.Claims.{
  Candidate, CandidateFilter, Row, Verdict, is_claimed, by_state, judge, keep, candidates_of, sift,
  join_message, join_rows, received_before, limit_rows, rows_of,
}

-- What holds of a row, some row has.
abbrev Within : {A : Type 0} → List A → A → Type 0
Within {A} xs x = (p : A → Bool) → p x ≡ true → any p xs ≡ true

Within-there : {A : Type 0} (x y : A) (xs : List A) → Within xs x → Within (y ∷ xs) x
unfolding any
Within-there x y xs h p e = or_true_right _ _ (h p e)

Within-find : {A : Type 0} (q : A → Bool) (x : A) (xs : List A) → find q xs ≡ some x → Within xs x
unfolding any find
Within-find q x [] h p e = cc
Within-find q x (y ∷ ys) h p e = elim (Bool-cases (q y)) [
  | inl here ↦
      let found : some y ≡ some x = sym (ap (λ b. if b then some y else find q ys) here) ∙ h in
      let same : y ≡ x = cc in or_true_left (p y) _ (rw same e)
  | inr later ↦
      or_true_right _ _
        (Within-find q x ys (sym (ap (λ b. if b then some y else find q ys) later) ∙ h) p e)
]

module _ (ms : List Message) (all_bindings : List Binding) (lease : ℕ) where
  abbrev JoinedIn : Row → Type 0
  JoinedIn row =
      Within ms row.message
      × Within all_bindings row.binding
      × (row.binding.lease_id ≡ lease)
      × (row.message.id ≡ row.binding.message_id)

  join_message-All :
      (b : Binding) (rows : List Row)
      → Within all_bindings b
      → b.lease_id ≡ lease
      → All JoinedIn rows
      → All JoinedIn (join_message ms b rows)
  unfolding join_message
  join_message-All b rows w e h = split (find (λ m. m.id == b.message_id) ms) refl
    where
      split :
          (o : Option Message)
          → find (λ m. m.id == b.message_id) ms ≡ o
          → All JoinedIn
              (elim o [ none ↦ rows | some m ↦ record { message = m; binding = b } ∷ rows ])
      split none found = h
      split (some m) found = (
        (
          Within-find _ m ms found,
          w,
          e,
          (==_iff m.id b.message_id).0 (find-holds (λ n. n.id == b.message_id) m ms found),
        ),
        h,
      )

  join_rows-All :
      (bs : List Binding)
      → ((b : Binding) → Within bs b → Within all_bindings b)
      → All JoinedIn (join_rows ms lease bs)
  unfolding join_rows any
  join_rows-All [] w = tt
  join_rows-All (b ∷ bs) w =
      let rest = join_rows-All bs (λ c wc. w c (Within-there c b bs wc)) in
      elim (Bool-cases (b.lease_id == lease)) [
        | inl e ↦ rw e (
            join_message-All b _ (w b (λ p here. or_true_left _ _ here))
              ((==_iff b.lease_id lease).0 e) rest)
        | inr e ↦ rw e rest
      ]

limit_rows-All :
    (P : Row → Type 0) (n : ℕ) (rows : List Row) → All P rows → All P (limit_rows n rows)
unfolding limit_rows
limit_rows-All P n rows h = split (ltb 0 n)
  where
    split : (b : Bool) → All P (if b then take n rows else rows)
    split true = take-All P n rows h
    split false = h

rows_of-All :
    (f : CandidateFilter) (db : Db)
    → All (JoinedIn db.messages db.bindings f.lease_id) (rows_of f db)
unfolding rows_of
rows_of-All f db = limit_rows-All _ f.limit _ (
    sort_by-All _ received_before _
      (join_rows-All db.messages db.bindings f.lease_id db.bindings (λ b w. w)))

unfoldable pub is_success : ExtractionState → Bool
is_success ExtractionState.success = true
is_success _ = false

unfoldable pub opens_to : Option Text → Text → Bool
opens_to none json = false
opens_to (some opened) json = text_eq opened json

-- The message of a candidate: received then, not held back, extracted, and opening to the payload.
unfoldable pub shows : (Text → Option Text) → Candidate → Message → Bool
unfolding is_success opens_to
shows open_sealed c m =
    m.id == c.message_id
    && (m.received_at == c.received_at
        && (not m.quarantined
            && (is_success m.extraction_state && opens_to (open_sealed m.extracted) c.extracted)))

unfoldable pub binds : ℕ → Candidate → Binding → Bool
binds lease c b = b.lease_id == lease && (b.message_id == c.message_id && binding_clean b)

-- What a candidate may be taken for.
pub record Offered (open_sealed : Text → Option Text) (db : Db) (f : CandidateFilter)
    (c : Candidate) : Type 0 where
  pub bound : any (binds f.lease_id c) db.bindings ≡ true
  pub shown : any (shows open_sealed c) db.messages ≡ true
  pub unclaimed : is_claimed db.claims f.kind c.message_id ≡ false
  pub fresh : f.not_before ≤ c.received_at

module _ (open_sealed : Text → Option Text) (db : Db) (f : CandidateFilter) where
  abbrev candidate : Row → Text → Candidate
  candidate row json = record {
    message_id = row.message.id;
    received_at = row.message.received_at;
    extracted = json;
  }

  -- What the chain of tests has established of a row that passed.
  usable-tests :
      (row : Row) (json : Text)
      → judge open_sealed db.claims f row ≡ Verdict.usable json
      → (row.message.quarantined ≡ false)
        × (binding_clean row.binding ≡ true)
        × (is_claimed db.claims f.kind row.message.id ≡ false)
        × (f.not_before ≤ row.message.received_at)
        × (row.message.extraction_state ≡ ExtractionState.success)
        × (open_sealed row.message.extracted ≡ some json)
  unfolding judge by_state
  usable-tests row json e =
      (ground arith, ground arith, ground arith, ground arith, ground arith, ground arith)

  usable-Offered :
      (row : Row) (json : Text)
      → judge open_sealed db.claims f row ≡ Verdict.usable json
      → JoinedIn db.messages db.bindings f.lease_id row
      → Offered open_sealed db f (candidate row json)
  unfolding shows binds is_success opens_to binding_clean
  usable-Offered row json e j =
      let t = usable-tests row json e in
      record {
        bound = j.1 (binds f.lease_id (candidate row json)) (bound_test t.1);
        shown = j.0 (shows open_sealed (candidate row json)) (shown_test t.0 t.4 t.5);
        unclaimed = t.2;
        fresh = t.3;
      }
    where
      bound_test :
          binding_clean row.binding ≡ true
          → binds f.lease_id (candidate row json) row.binding ≡ true
      bound_test clean = rw (j.2, sym j.3, clean) (ground arith)

      shown_test :
          row.message.quarantined ≡ false
          → row.message.extraction_state ≡ ExtractionState.success
          → open_sealed row.message.extracted ≡ some json
          → shows open_sealed (candidate row json) row.message ≡ true
      shown_test q st op = rw (q, st, op, text_eq_refl json) (ground arith)

  keep-Offered :
      (row : Row) (w : Verdict) (cs : List Candidate)
      → judge open_sealed db.claims f row ≡ w
      → JoinedIn db.messages db.bindings f.lease_id row
      → All (Offered open_sealed db f) cs
      → All (Offered open_sealed db f) (keep w row cs)
  unfolding keep
  keep-Offered row (Verdict.usable json) cs e j h = (usable-Offered row json e j, h)
  keep-Offered row Verdict.quarantined cs e j h = h
  keep-Offered row Verdict.suspect cs e j h = h
  keep-Offered row Verdict.already_claimed cs e j h = h
  keep-Offered row Verdict.stale cs e j h = h
  keep-Offered row Verdict.extraction_fail cs e j h = h
  keep-Offered row Verdict.pending cs e j h = h

  candidates_of-Offered :
      (rows : List Row)
      → All (JoinedIn db.messages db.bindings f.lease_id) rows
      → All (Offered open_sealed db f) (candidates_of (judge open_sealed db.claims f) rows)
  unfolding candidates_of
  candidates_of-Offered [] h = tt
  candidates_of-Offered (row ∷ rows) h =
      keep-Offered row _ _ refl h.0 (candidates_of-Offered rows h.1)

  -- Each candidate of a claim is a message that is bound cleanly to the lease, not held back, extracted
  -- with success, readable, received no earlier than the lower bound, and not claimed for the kind.
  pub candidates-Offered :
      All (Offered open_sealed db f) (sift (judge open_sealed db.claims f) (rows_of f db)).0
  candidates-Offered = candidates_of-Offered _ (rows_of-All f db)
