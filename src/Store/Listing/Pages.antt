-- ===== src/Store/Listing/Pages.antt =====
-- The pages of a listing (internal/store/messages.go: `ListMessages`) follow one another.
use authstunt.Prelude.{
  ◌≡◌, refl, sym, ap, subst, ◌∙◌, inl, inr, Text, Bool, true, false, List, [], ◌∷◌, ◌++◌, select,
  insert_by, sort_by, insert_by-All, sort_by-All, All, All-mono, ◌==◌, ◌&&◌, ◌||◌, if◌then◌else◌,
  Bool-cases, if_true, if_false, arith, and_left, select-All,
}
use authstunt.Store.Models.{Message}
use authstunt.Store.Monad.{Db}
use authstunt.Store.Listing.{
  MessageCursor, cursor_for, cursor_is_zero, MessageFilter, newest_first, below_cursor, wanted,
  selected, all_rows,
}

abbrev Above : Message → Message → Type 0
Above m n = newest_first m n ≡ true

Above-trans : (a b c : Message) → Above a b → Above b c → Above a c
unfolding newest_first
Above-trans a b c h k = ground arith

Above-asym : (a b : Message) → Above a b → newest_first b a ≡ false
unfolding newest_first
Above-asym a b h = ground arith

Above-total : (a b : Message) → newest_first a b ≡ false → (a.id == b.id) ≡ false → Above b a
unfolding newest_first
Above-total a b h differ = ground arith

-- Each message comes before all those after it.
abbrev Down : List Message → Type 0
Down [] = Unit {0}
Down (m ∷ ms) = All (Above m) ms × Down ms

-- The primary key of the table.
abbrev pub DifferentIds : List Message → Type 0
DifferentIds [] = Unit {0}
DifferentIds (m ∷ ms) = All (λ n. (n.id == m.id) ≡ false) ms × DifferentIds ms

insert_by-Down :
    (m : Message) (ms : List Message)
    → Down ms
    → All (λ n. (n.id == m.id) ≡ false) ms
    → Down (insert_by newest_first m ms)
unfolding insert_by
insert_by-Down m [] h d = (tt, tt)
insert_by-Down m (n ∷ ms) h d = split (insert_by-Down m ms h.1 d.1)
  where
    split : Down (insert_by newest_first m ms) → Down (insert_by newest_first m (n ∷ ms))
    split rest = elim (Bool-cases (newest_first n m)) [
      | inl e ↦
          subst Down (sym (if_true (newest_first n m) _ _ e))
            (insert_by-All (Above n) newest_first m ms e h.0, rest)
      | inr e ↦
          let first : Above m n = Above-total n m e d.0 in
          subst Down (sym (if_false (newest_first n m) _ _ e))
            ((first, All-mono (Above n) (Above m) ms (λ x k. Above-trans m n x first k) h.0), h)
    ]

sort_by-Down : (ms : List Message) → DifferentIds ms → Down (sort_by newest_first ms)
unfolding sort_by
sort_by-Down [] d = tt
sort_by-Down (m ∷ ms) d =
    insert_by-Down m (sort_by newest_first ms) (sort_by-Down ms d.1)
      (sort_by-All (λ n. (n.id == m.id) ≡ false) newest_first ms d.0)

select-kept :
    (P : Message → Type 0) (p : Message → Bool) (ms : List Message) → All P ms → All P (select p ms)
unfolding select
select-kept P p [] h = tt
select-kept P p (m ∷ ms) h = elim (Bool-cases (p m)) [
  | inl e ↦ subst (All P) (sym (if_true (p m) _ _ e)) (h.0, select-kept P p ms h.1)
  | inr e ↦ subst (All P) (sym (if_false (p m) _ _ e)) (select-kept P p ms h.1)
]

insert_by-front :
    (m : Message) (ms : List Message)
    → All (λ n. newest_first n m ≡ false) ms
    → insert_by newest_first m ms ≡ m ∷ ms
unfolding insert_by
insert_by-front m [] h = refl
insert_by-front m (n ∷ ms) h = if_false (newest_first n m) _ _ h.0

module _ (p : Message → Bool) where
  -- A message that is selected is inserted among the selected.
  select-insert_by :
      (m : Message) (ms : List Message)
      → Down ms
      → All (λ n. (n.id == m.id) ≡ false) ms
      → select p (insert_by newest_first m ms)
        ≡ (if p m then insert_by newest_first m (select p ms) else select p ms)
  unfolding select insert_by
  select-insert_by m [] h d = elim (Bool-cases (p m)) [ inl e ↦ rw e refl | inr e ↦ rw e refl ]
  select-insert_by m (n ∷ ms) h d = split (select-insert_by m ms h.1 d.1)
    where
      behind : newest_first n m ≡ false → All (λ x. newest_first x m ≡ false) (n ∷ ms)
      behind e =
          let first : Above m n = Above-total n m e d.0 in
          (
            e,
            All-mono (Above n) (λ x. newest_first x m ≡ false) ms
                (λ x k. Above-asym m x (Above-trans m n x first k)) h.0,
          )

      swap :
          (b c : Bool) (chosen : List Message)
          → newest_first n m ≡ true
          → (if b
              then n ∷ (if c then insert_by newest_first m chosen else chosen)
              else (if c then insert_by newest_first m chosen else chosen))
            ≡ (if c
                then insert_by newest_first m (if b then n ∷ chosen else chosen)
                else (if b then n ∷ chosen else chosen))
      swap true true chosen e = sym (if_true (newest_first n m) _ _ e)
      swap true false chosen e = refl
      swap false true chosen e = refl
      swap false false chosen e = refl

      after_it :
          newest_first n m ≡ true
          → select p (insert_by newest_first m ms)
            ≡ (if p m then insert_by newest_first m (select p ms) else select p ms)
          → select p (n ∷ insert_by newest_first m ms)
            ≡ (if p m then insert_by newest_first m (select p (n ∷ ms)) else select p (n ∷ ms))
      after_it e rest = ap (λ x. if p n then n ∷ x else x) rest ∙ swap (p n) (p m) (select p ms) e

      split :
          select p (insert_by newest_first m ms)
            ≡ (if p m then insert_by newest_first m (select p ms) else select p ms)
          → select p (insert_by newest_first m (n ∷ ms))
            ≡ (if p m then insert_by newest_first m (select p (n ∷ ms)) else select p (n ∷ ms))
      split rest = elim (Bool-cases (newest_first n m)) [
        | inl e ↦ ap (select p) (if_true (newest_first n m) _ _ e) ∙ after_it e rest
        | inr e ↦ ap (select p) (if_false (newest_first n m) _ _ e) ∙ elim (Bool-cases (p m)) [
          | inl f ↦
              if_true (p m) _ _ f
              ∙ sym (
                  insert_by-front m _
                    (select-kept (λ x. newest_first x m ≡ false) p (n ∷ ms) (behind e)))
              ∙ sym (if_true (p m) _ _ f)
          | inr f ↦ if_false (p m) _ _ f ∙ sym (if_false (p m) _ _ f)
        ]
      ]

  select-sort_by :
      (ms : List Message)
      → DifferentIds ms
      → select p (sort_by newest_first ms) ≡ sort_by newest_first (select p ms)
  unfolding select sort_by
  select-sort_by [] d = refl
  select-sort_by (m ∷ ms) d =
      select-insert_by m (sort_by newest_first ms) (sort_by-Down ms d.1)
        (sort_by-All (λ n. (n.id == m.id) ≡ false) newest_first ms d.0)
      ∙ ap (λ x. if p m then insert_by newest_first m x else x) (select-sort_by ms d.1)
      ∙ split (p m)
    where
      split :
          (b : Bool)
          → (if b
              then insert_by newest_first m (sort_by newest_first (select p ms))
              else sort_by newest_first (select p ms))
            ≡ sort_by newest_first (if b then m ∷ select p ms else select p ms)
      split true = refl
      split false = refl

select-All-true :
    (p : Message → Bool) (ms : List Message) → All (λ m. p m ≡ true) ms → select p ms ≡ ms
unfolding select
select-All-true p [] h = refl
select-All-true p (m ∷ ms) h = if_true (p m) _ _ h.0 ∙ ap (◌∷◌ m) (select-All-true p ms h.1)

All-at :
    (P : Message → Type 0) (before rest : List Message) (m : Message)
    → All P (before ++ (m ∷ rest))
    → P m
All-at P [] rest m h = h.0
All-at P (b ∷ before) rest m h = All-at P before rest m h.1

-- In a descending list, what is below the cursor of a message is what comes after it.
below-rest :
    (before rest : List Message) (m : Message)
    → Down (before ++ (m ∷ rest))
    → select (below_cursor (cursor_for m)) (before ++ (m ∷ rest)) ≡ rest
unfolding select below_cursor cursor_for newest_first
below-rest [] rest m h =
    let itself : below_cursor (cursor_for m) m ≡ false = ground arith in
    if_false (below_cursor (cursor_for m) m) _ _ itself
    ∙ select-All-true (below_cursor (cursor_for m)) rest (
        All-mono (Above m) (λ n. below_cursor (cursor_for m) n ≡ true) rest (λ n k. same_order n k)
          h.0)
  where
    same_order : (n : Message) → Above m n → below_cursor (cursor_for m) n ≡ true
    same_order n k = ground arith
below-rest (b ∷ before) rest m h =
    let above : Above b m = All-at (Above b) before rest m h.0 in
    let not_below : below_cursor (cursor_for m) b ≡ false = ground arith in
    if_false (below_cursor (cursor_for m) b) _ _ not_below ∙ below-rest before rest m h.1

select-DifferentIds :
    (p : Message → Bool) (ms : List Message) → DifferentIds ms → DifferentIds (select p ms)
unfolding select
select-DifferentIds p [] d = tt
select-DifferentIds p (m ∷ ms) d = elim (Bool-cases (p m)) [
  | inl e ↦
      subst DifferentIds (sym (if_true (p m) _ _ e))
        (select-kept (λ n. (n.id == m.id) ≡ false) p ms d.0, select-DifferentIds p ms d.1)
  | inr e ↦ subst DifferentIds (sym (if_false (p m) _ _ e)) (select-DifferentIds p ms d.1)
]

select_both :
    (p q r : Message → Bool)
    → ((m : Message) → p m ≡ (q m && r m))
    → (ms : List Message) → select p ms ≡ select q (select r ms)
unfolding select
select_both p q r h [] = refl
select_both p q r h (m ∷ ms) =
    ap (λ b. if b then m ∷ select p ms else select p ms) (h m)
    ∙ ap (λ x. if q m && r m then m ∷ x else x) (select_both p q r h ms)
    ∙ split (q m) (r m) refl
  where
    split :
        (a b : Bool)
        → q m ≡ a
        → (if a && b then m ∷ select q (select r ms) else select q (select r ms))
          ≡ select q (if b then m ∷ select r ms else select r ms)
    split true true e = sym (if_true (q m) _ _ e)
    split true false e = refl
    split false true e = sym (if_false (q m) _ _ e)
    split false false e = refl

-- What is below a message that is below a cursor is below that cursor.
below-below :
    (c : MessageCursor) (m n : Message)
    → below_cursor c m ≡ true
    → below_cursor (cursor_for m) n ≡ true
    → below_cursor c n ≡ true
unfolding below_cursor cursor_for
below-below c m n h k = ground arith

either : (a b c : Bool) → (a || b) ≡ true → (b ≡ true → c ≡ true) → (a || c) ≡ true
either true b c h k = refl
either false b c h k = k h

module _ (normal : Text → Text) (db : Db) (f : MessageFilter) (m : Message) where
  abbrev next_page : MessageFilter
  next_page = record f { cursor = cursor_for m }

  -- The next page has of the rows of this listing those below its last message.
  selected-next :
      (m.id == 0) ≡ false
      → selected normal db f m ≡ true
      → (n : Message)
      → selected normal db next_page n ≡ (below_cursor (cursor_for m) n && selected normal db f n)
  unfolding selected cursor_is_zero cursor_for
  selected-next named chosen n =
      ap
        (λ z.
          ((z && (m.received_at == 0)) || below_cursor (cursor_for m) n) && wanted normal db f n)
        named
      ∙ split (below_cursor (cursor_for m) n) (cursor_is_zero f.cursor || below_cursor f.cursor n)
          (λ e. continues e)
    where
      continues :
          below_cursor (cursor_for m) n ≡ true
          → (cursor_is_zero f.cursor || below_cursor f.cursor n) ≡ true
      continues e =
          either (cursor_is_zero f.cursor) (below_cursor f.cursor m) (below_cursor f.cursor n)
            (and_left _ _ chosen) (λ h. below-below f.cursor m n h e)

      split :
          (a b : Bool)
          → (a ≡ true → b ≡ true)
          → (a && wanted normal db f n) ≡ (a && (b && wanted normal db f n))
      split true b h = ap (λ x. x && wanted normal db f n) (sym (h refl))
      split false b h = refl

  all_selected : All (λ n. selected normal db f n ≡ true) (all_rows normal db f)
  unfolding all_rows
  all_selected =
      sort_by-All (λ n. selected normal db f n ≡ true) newest_first
        (select (selected normal db f) db.messages)
        (select-All (λ n. selected normal db f n ≡ true) (selected normal db f) (λ n h. h)
          db.messages)

  -- Where the messages have different ids, and a message other than the zero id is in a listing, the
  -- listing with the same filter and the cursor of that message is exactly what comes after it.
  pub all_rows-next :
      (before rest : List Message)
      → DifferentIds db.messages
      → (m.id == 0) ≡ false
      → all_rows normal db f ≡ before ++ (m ∷ rest)
      → all_rows normal db next_page ≡ rest
  unfolding all_rows
  all_rows-next before rest d named e =
      ap (sort_by newest_first) (
        select_both (selected normal db next_page) (below_cursor (cursor_for m))
          (selected normal db f)
          (selected-next named (
            All-at _ before rest m
              (subst (All (λ n. selected normal db f n ≡ true)) e all_selected)))
          db.messages)
      ∙ sym (
          select-sort_by (below_cursor (cursor_for m)) (select (selected normal db f) db.messages)
            (select-DifferentIds (selected normal db f) db.messages d))
      ∙ ap (select (below_cursor (cursor_for m))) e
      ∙ below-rest before rest m (
          subst Down e (
            sort_by-Down (select (selected normal db f) db.messages)
              (select-DifferentIds (selected normal db f) db.messages d)))
