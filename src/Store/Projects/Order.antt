-- ===== src/Store/Projects/Order.antt =====
-- The order of an allowlist (internal/store/projects.go: `SetAllowlist` and `Allowlist`).
use authstunt.Prelude.{
  ℕ, suc, ◌<◌, ◌≡◌, refl, sym, ap, subst, ◌∙◌, inl, inr, ◌⊎◌, Text, Bool, true, false, not, Option,
  none, some, List, [], ◌∷◌, ◌++◌, ◌&&◌, ◌||◌, map, any, select, insert_by, sort_by, All, ltb, ◌==◌,
  if◌then◌else◌, Bool-cases, if_true, arith, ==_iff, lt→ltb,
}
use mathlib.Core.List.{append-nil, append_assoc}
use authstunt.Store.Models.{Pattern}
use authstunt.Store.Monad.{
  Store, Outcome, ok, err, constraint, invalid, or_fail, continue, roll_back, with_tx, ◌>>=◌,
}
use authstunt.Store.Address.{same_addr}
use authstunt.Store.Projects.{
  project_with_id, of_project, canonical_patterns, clear_allowlist, insert_pattern, insert_patterns,
  replace_allowlist, set_allowlist, ord_before, patterns_of,
}

-- The rows of a project for patterns that are numbered from `i`, newest first, in front of others.
unfoldable rows : ℕ → ℕ → List Text → List Pattern → List Pattern
rows id i [] older = older
rows id i (p ∷ ps) older =
    rows id (suc i) ps (record { project_id = id; pattern = p; ord = i } ∷ older)

-- A row that all the others come before goes to the end.
insert_by-last :
    (r : Pattern) (rs : List Pattern)
    → All (λ q. q.ord < r.ord) rs
    → insert_by ord_before r rs ≡ rs ++ (r ∷ [])
unfolding insert_by
insert_by-last r [] h = refl
insert_by-last r (q ∷ rs) h =
    if_true (ltb q.ord r.ord) _ _ (lt→ltb _ _ h.0) ∙ ap (◌∷◌ q) (insert_by-last r rs h.1)

-- What the table gives for a project.
abbrev Ordered : ℕ → ℕ → List Pattern → Type 0
Ordered id n table = All (λ q. q.ord < n) (sort_by ord_before (select (of_project id) table))

All-end :
    (n : ℕ) (rs : List Pattern) (r : Pattern)
    → All (λ q. q.ord < n) rs
    → r.ord ≡ n
    → All (λ q. q.ord < suc n) (rs ++ (r ∷ []))
All-end n [] r h e = (omega (arith, e), tt)
All-end n (q ∷ rs) r h e = (omega (arith, h.0), All-end n rs r h.1 e)

map-end :
    (rs : List Pattern) (r : Pattern)
    → map (λ q. q.pattern) (rs ++ (r ∷ [])) ≡ map (λ q. q.pattern) rs ++ (r.pattern ∷ [])
map-end [] r = refl
map-end (q ∷ rs) r = ap (◌∷◌ q.pattern) (map-end rs r)

module _ (id n : ℕ) (p : Text) (table : List Pattern) (h : Ordered id n table) where
  abbrev next_row : Pattern
  next_row = record { project_id = id; pattern = p; ord = n }

  sorted-next :
      sort_by ord_before (select (of_project id) (next_row ∷ table))
      ≡ sort_by ord_before (select (of_project id) table) ++ (next_row ∷ [])
  unfolding select sort_by
  sorted-next =
      ap (sort_by ord_before) (if_true (id == id) _ _ ((==_iff id id).1 refl))
      ∙ insert_by-last next_row _ h

  next-Ordered : Ordered id (suc n) (next_row ∷ table)
  next-Ordered = rw sorted-next (All-end n _ next_row h refl)

  next-patterns : patterns_of id (next_row ∷ table) ≡ patterns_of id table ++ (p ∷ [])
  unfolding patterns_of
  next-patterns = ap (map (λ q. q.pattern)) sorted-next ∙ map-end _ next_row

rows-patterns :
    (id n : ℕ) (ps : List Text) (table : List Pattern)
    → Ordered id n table
    → patterns_of id (rows id n ps table) ≡ patterns_of id table ++ ps
unfolding rows
rows-patterns id n [] table h = sym (append-nil _)
rows-patterns id n (p ∷ ps) table h =
    rows-patterns id (suc n) ps _ (next-Ordered id n p table h)
    ∙ ap (λ xs. xs ++ ps) (next-patterns id n p table h)
    ∙ append_assoc (patterns_of id table) (p ∷ []) ps

-- No pattern is the same as an earlier one, in any case of the letters.
unfoldable pub distinct : List Text → List Text → Bool
unfolding any same_addr
distinct seen [] = true
distinct seen (p ∷ ps) = not (any (λ q. same_addr q p) seen) && distinct (p ∷ seen) ps

-- The patterns that the project has in the table.
abbrev Seen : ℕ → List Text → List Pattern → Type 0
Seen id seen table =
    (p : Text)
    → any (λ q. q.project_id == id && same_addr q.pattern p) table ≡ any (λ q. same_addr q p) seen

Seen-cons :
    (id i : ℕ) (p : Text) (seen : List Text) (table : List Pattern)
    → Seen id seen table
    → Seen id (p ∷ seen) (record { project_id = id; pattern = p; ord = i } ∷ table)
unfolding any
Seen-cons id i p seen table h other =
    ap
      (λ b.
        (b && same_addr p other)
        || any (λ q. q.project_id == id && same_addr q.pattern other) table)
      ((==_iff id id).1 refl)
    ∙ ap (λ b. same_addr p other || b) (h other)

-- The rows are in the table, or there is no such project or a pattern is there twice.
abbrev Inserted : ℕ → ℕ → List Text → List Text → Store → Outcome (Unit {0}) → Type 0
Inserted id i seen ps s (ok t after) =
    after ≡ record s { db = record s.db { allowlist = rows id i ps s.db.allowlist } }
Inserted id i seen ps s (err e after) =
    (any (project_with_id id) s.db.projects ≡ false) ⊎ (distinct seen ps ≡ false)

with_row : ℕ → ℕ → Text → Store → Store
with_row id i p s = record s {
  db = record s.db {
    allowlist = record { project_id = id; pattern = p; ord = i } ∷ s.db.allowlist;
  };
}

Inserted-cons :
    (id i : ℕ) (p : Text) (seen ps : List Text) (s : Store) (o : Outcome (Unit {0}))
    → any (λ q. same_addr q p) seen ≡ false
    → Inserted id (suc i) (p ∷ seen) ps (with_row id i p s) o
    → Inserted id i seen (p ∷ ps) s o
unfolding rows distinct with_row
Inserted-cons id i p seen ps s (ok t after) new h = h
Inserted-cons id i p seen ps s (err e after) new (inl h) = inl h
Inserted-cons id i p seen ps s (err e after) new (inr h) =
    inr (ap (λ b. not b && distinct (p ∷ seen) ps) new ∙ h)

insert_patterns-Inserted :
    (id i : ℕ) (seen ps : List Text) (s : Store)
    → Seen id seen s.db.allowlist
    → Inserted id i seen ps s (insert_patterns id i ps s)
unfolding insert_patterns insert_pattern rows with_row distinct any ◌>>=◌
insert_patterns-Inserted id i seen [] s h = refl
insert_patterns-Inserted id i seen (p ∷ ps) s h =
    split (any (λ q. q.project_id == id && same_addr q.pattern p) s.db.allowlist)
      (any (project_with_id id) s.db.projects) (sym (h p)) refl
      (insert_patterns-Inserted id (suc i) (p ∷ seen) ps (with_row id i p s)
        (Seen-cons id i p seen s.db.allowlist h))
  where
    split :
        (clash known : Bool)
        → any (λ q. same_addr q p) seen ≡ clash
        → any (project_with_id id) s.db.projects ≡ known
        → Inserted id
            (suc i)
            (p ∷ seen)
            ps
            (with_row id i p s)
            (insert_patterns id (suc i) ps (with_row id i p s))
        → Inserted id i seen (p ∷ ps) s (
            continue
              (if clash || not known then err constraint s else ok tt (with_row id i p s))
              (λ _. insert_patterns id (suc i) ps))
    split true known ec ek rec = inr (ap (λ b. not b && distinct (p ∷ seen) ps) ec)
    split false false ec ek rec = inl ek
    split false true ec ek rec = Inserted-cons id i p seen ps s _ ec rec

-- The table without the rows of a project.
cleared-any :
    (id : ℕ) (p : Text) (table : List Pattern)
    → any
        (λ q. q.project_id == id && same_addr q.pattern p)
        (select (λ r. not (of_project id r)) table)
      ≡ false
unfolding any select
cleared-any id p [] = refl
cleared-any id p (r ∷ table) = elim (Bool-cases (r.project_id == id)) [
  | inl e ↦ rw e (cleared-any id p table)
  | inr e ↦ rw e (rw e (cleared-any id p table))
]

cleared-none :
    (id : ℕ) (table : List Pattern)
    → select (of_project id) (select (λ r. not (of_project id r)) table) ≡ []
unfolding select
cleared-none id [] = refl
cleared-none id (r ∷ table) = elim (Bool-cases (r.project_id == id)) [
  | inl e ↦ rw e (cleared-none id table)
  | inr e ↦ rw e (rw e (cleared-none id table))
]

-- The patterns as they are read back; an error means that a pattern cannot be used or is there twice, or
-- that there is no such project.
abbrev pub Listed : ℕ → List Text → Store → Outcome (Unit {0}) → Type 0
Listed id patterns before (ok t s) =
    canonical_patterns before.outside.to_ascii patterns ≡ some (patterns_of id s.db.allowlist)
Listed id patterns before (err e s) =
    (any (project_with_id id) before.db.projects ≡ false)
    ⊎ ((canonical_patterns before.outside.to_ascii patterns ≡ none)
        ⊎ ((canonical : List Text) × (canonical_patterns before.outside.to_ascii patterns
              ≡ some canonical)
            × (distinct [] canonical ≡ false)))

-- From the cleared table on.
replace-Listed :
    (id : ℕ) (patterns canonical : List Text) (s : Store)
    → canonical_patterns s.outside.to_ascii patterns ≡ some canonical
    → (o : Outcome (Unit {0}))
    → Inserted id 0 [] canonical
        (record s {
          db = record s.db { allowlist = select (λ r. not (of_project id r)) s.db.allowlist };
        })
        o
    → Listed id patterns s (roll_back s.db o)
unfolding roll_back patterns_of sort_by
replace-Listed id patterns canonical s e (err x t) (inl unknown) = inl unknown
replace-Listed id patterns canonical s e (err x t) (inr twice) = inr (inr (canonical, e, twice))
replace-Listed id patterns canonical s e (ok u t) h =
    e
    ∙ ap some (
        sym (
          ap (λ x. patterns_of id x.db.allowlist) h
          ∙ rows-patterns id 0 canonical (select (λ r. not (of_project id r)) s.db.allowlist) (
              subst (λ rs. All (λ q. q.ord < 0) (sort_by ord_before rs))
                (sym (cleared-none id s.db.allowlist)) tt)
          ∙ ap (λ rs. map (λ q. q.pattern) (sort_by ord_before rs) ++ canonical)
              (cleared-none id s.db.allowlist)))

-- After an allowlist is set, its patterns are read back canonical and in the order in which they were
-- declared; setting fails only where a pattern cannot be used, two are the same in any case of the
-- letters, or there is no such project.
pub set_allowlist-Listed :
    (id : ℕ) (patterns : List Text) (s : Store) → Listed id patterns s (set_allowlist id patterns s)
unfolding set_allowlist replace_allowlist clear_allowlist ◌>>=◌ any
set_allowlist-Listed id patterns s = split (canonical_patterns s.outside.to_ascii patterns) refl
  where
    split :
        (o : Option (List Text))
        → canonical_patterns s.outside.to_ascii patterns ≡ o
        → Listed id patterns s
            (continue (or_fail o invalid s) (λ canonical. with_tx (replace_allowlist id canonical)))
    split none e = inr (inl e)
    split (some canonical) e = replace-Listed id patterns canonical s e _ (
        insert_patterns-Inserted id 0 [] canonical
          (record s {
            db = record s.db { allowlist = select (λ r. not (of_project id r)) s.db.allowlist };
          })
          (λ p. cleared-any id p s.db.allowlist))
