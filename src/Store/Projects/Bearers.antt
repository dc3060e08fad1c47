-- ===== src/Store/Projects/Bearers.antt =====
-- Setting and revoking the bearer of a project (internal/store/projects.go).
use authstunt.Prelude.{
  ℕ, suc, ◌++◌, ◌≡◌, ◌≢◌, ◌⊎◌, refl, sym, ap, ◌∙◌, inl, inr, Text, Bool, true, false, not, Option,
  none, some, List, [], ◌∷◌, ◌&&◌, ◌||◌, any, find, update_where, ◌==◌, if◌then◌else◌, Bool-cases,
  if_true, if_false, text_eq, text_eq_refl, ==_iff, or_left_false, or_right_false,
}
use authstunt.Store.Models.{Project}
use authstunt.Store.Monad.{
  Store, Outcome, ok, err, not_found, constraint, or_fail, pure, continue, roll_back, ◌>>=◌,
}
use authstunt.Store.Identities.{is_empty}
use authstunt.Store.Projects.{
  hash_project_bearer, project_bearer, project_bearer_prefix, has_digest, project_with_id,
  with_bearer, update_bearer, digest_taken, store_bearer, set_drawn, tx_set_project_bearer,
  set_project_bearer, tx_revoke_project_bearer, revoke_project_bearer, project_by_bearer,
}

-- The project that a token authenticates.
unfoldable pub answered : Outcome Project → Option ℕ
answered (ok p s) = some p.id
answered (err e s) = none

abbrev pub found_id : Option Project → Option ℕ
found_id none = none
found_id (some p) = some p.id

module _ (id : ℕ) (held : Option Text) (other : Text) (p : Project) (ps : List Project) where
  -- The search for a digest in the rows after the update.
  abbrev sought : List Project → Option ℕ
  sought rows =
      found_id (find (has_digest other) (update_where (project_with_id id) (with_bearer held) rows))

  sought-row :
      (r : Project)
      → (if p.id == id then with_bearer held p else p) ≡ r
      → sought (p ∷ ps)
        ≡ found_id (
            if has_digest other r
            then some r
            else find (has_digest other) (update_where (project_with_id id) (with_bearer held) ps))
  unfolding find update_where
  sought-row r e =
      ap
        (λ x. found_id (
          if has_digest other x
          then some x
          else find (has_digest other) (update_where (project_with_id id) (with_bearer held) ps)))
        e

  sought-hit :
      (r : Project)
      → (if p.id == id then with_bearer held p else p) ≡ r
      → has_digest other r ≡ true
      → sought (p ∷ ps) ≡ some r.id
  sought-hit r e hit = sought-row r e ∙ ap found_id (if_true _ _ _ hit)

  sought-miss :
      (r : Project)
      → (if p.id == id then with_bearer held p else p) ≡ r
      → has_digest other r ≡ false
      → sought (p ∷ ps) ≡ sought ps
  sought-miss r e miss = sought-row r e ∙ ap found_id (if_false _ _ _ miss)

-- The rows of a project all hold what was stored.
find-stored :
    (id : ℕ) (digest : Text) (ps : List Project)
    → any (project_with_id id) ps ≡ true
    → any (λ p. not (p.id == id) && has_digest digest p) ps ≡ false
    → found_id (
        find (has_digest digest) (update_where (project_with_id id) (with_bearer (some digest)) ps))
      ≡ some id
unfolding any with_bearer has_digest
find-stored id digest [] known free = absurd cc
find-stored id digest (p ∷ ps) known free = elim (Bool-cases (p.id == id)) [
  | inl e ↦
      sought-hit id (some digest) digest p ps (with_bearer (some digest) p) (if_true _ _ _ e)
        (text_eq_refl digest)
      ∙ ap some ((==_iff p.id id).0 e)
  | inr e ↦
      sought-miss id (some digest) digest p ps p (if_false _ _ _ e)
        (sym (ap (λ b. not b && has_digest digest p) e) ∙ or_left_false _ _ free)
      ∙ find-stored id digest ps (sym (ap (λ b. b || any (project_with_id id) ps) e) ∙ known)
          (or_right_false (not (p.id == id) && has_digest digest p) _ free)
]

abbrev answers : Option Text → Text → Bool
answers held other = elim held [ none ↦ false | some digest ↦ text_eq digest other ]

-- No row of the project answers a digest that differs from what is stored.
find-replaced :
    (id : ℕ) (held : Option Text) (other : Text) (ps : List Project)
    → answers held other ≡ false
    → found_id (find (has_digest other) (update_where (project_with_id id) (with_bearer held) ps))
      ≢ some id
unfolding find update_where with_bearer has_digest
find-replaced id held other [] differ e = cc
find-replaced id held other (p ∷ ps) differ e = elim (Bool-cases (p.id == id)) [
  | inl own ↦
      find-replaced id held other ps differ
        (sym (sought-miss id held other p ps (with_bearer held p) (if_true _ _ _ own) differ) ∙ e)
  | inr foreign ↦ elim (Bool-cases (has_digest other p)) [
    | inl hit ↦
        let same : p.id ≡ id =
          some_id (sym (sought-hit id held other p ps p (if_false _ _ _ foreign) hit) ∙ e) in
        clash (sym foreign ∙ (==_iff p.id id).1 same)
    | inr miss ↦
        find-replaced id held other ps differ
          (sym (sought-miss id held other p ps p (if_false _ _ _ foreign) miss) ∙ e)
  ]
]
  where
    some_id : {a b : ℕ} → some a ≡ some b → a ≡ b
    some_id q = cc

    clash : false ≡ true → ⊥
    clash q = cc

by_bearer-answered :
    (s : Store) (token : Text)
    → answered (project_by_bearer token s) ≡ (
        if is_empty token
        then none
        else found_id (find (has_digest (s.outside.sha256 token)) s.db.projects))
unfolding project_by_bearer hash_project_bearer ◌>>=◌ answered is_empty
by_bearer-answered s [] = refl
by_bearer-answered s (c ∷ token) =
    found (find (has_digest (s.outside.sha256 (c ∷ token))) s.db.projects)
  where
    found : (o : Option Project) → answered (or_fail o not_found s) ≡ found_id o
    found none = refl
    found (some p) = refl

-- Why no bearer can be set: no such project, no random bytes, or a digest that another project holds.
abbrev pub Refusable : ℕ → Store → Option Text → Type 0
Refusable id before drawn =
    (any (project_with_id id) before.db.projects ≡ false)
    ⊎ ((drawn ≡ none)
        ⊎ ((raw : Text) × (drawn ≡ some raw)
            × (any
                  (λ p.
                    not (p.id == id)
                    && has_digest
                        (before.outside.sha256
                          (project_bearer_prefix ++ before.outside.base64url raw))
                        p)
                  before.db.projects
                ≡ true)))

-- The token that was returned, and any other.
abbrev pub Rotated : ℕ → Store → Option Text → Outcome Text → Type 0
Rotated id before drawn (ok token s) =
    (answered (project_by_bearer token s) ≡ some id)
    × ((other : Text)
        → text_eq (s.outside.sha256 token) (s.outside.sha256 other) ≡ false
        → answered (project_by_bearer other s) ≢ some id)
Rotated id before drawn (err e s) = Refusable id before drawn

-- No answer where none would be found.
unanswered :
    (s : Store) (id : ℕ) (other : Text)
    → found_id (find (has_digest (s.outside.sha256 other)) s.db.projects) ≢ some id
    → answered (project_by_bearer other s) ≢ some id
unanswered s id other h e = elim (Bool-cases (is_empty other)) [
  | inl z ↦ absurd (none_found (sym (by_bearer-answered s other ∙ if_true _ _ _ z) ∙ e))
  | inr nz ↦ h (sym (by_bearer-answered s other ∙ if_false _ _ _ nz) ∙ e)
]
  where
    none_found : none ≡ some id → ⊥
    none_found q = cc

module _ (id : ℕ) (s : Store) (raw token : Text) (c : ℕ) (rest : Text)
    (shape : token ≡ c ∷ rest) where
  abbrev stored_digest : Text
  stored_digest = s.outside.sha256 token

  -- The table after the update answers the token, and no other.
  stored-Rotated :
      any (project_with_id id) s.db.projects ≡ true
      → any (λ p. not (p.id == id) && has_digest stored_digest p) s.db.projects ≡ false
      → Rotated id s (some raw) (
          ok token (record s {
            db = record s.db {
              projects =
                  update_where
                    (project_with_id id)
                    (with_bearer (some stored_digest))
                    s.db.projects;
            };
          }))
  unfolding is_empty
  stored-Rotated known free = (
    by_bearer-answered _ token
        ∙ if_false (is_empty token) _ _ (ap is_empty shape)
        ∙ find-stored id stored_digest s.db.projects known free,
    λ other differ.
        unanswered _ id other
          (find-replaced id (some stored_digest) (s.outside.sha256 other) s.db.projects differ),
  )

set_drawn-Rotated :
    (id : ℕ) (drawn : Option Text) (s : Store) → Rotated id s drawn (set_drawn id drawn s)
unfolding set_drawn project_bearer hash_project_bearer store_bearer update_bearer digest_taken ◌>>=◌
set_drawn-Rotated id none s = inr (inl refl)
set_drawn-Rotated id (some raw) s =
    split (any (project_with_id id) s.db.projects)
      (any (λ p. not (p.id == id) && has_digest digest p) s.db.projects) refl refl
  where
    token : Text
    token = project_bearer_prefix ++ s.outside.base64url raw

    digest : Text
    digest = s.outside.sha256 token

    split :
        (known taken : Bool)
        → any (project_with_id id) s.db.projects ≡ known
        → any
            (λ p.
              not (p.id == id)
              && has_digest (s.outside.sha256 (project_bearer_prefix ++ s.outside.base64url raw)) p)
            s.db.projects
          ≡ taken
        → Rotated id s (some raw) (
            continue
              (if known && taken
                then err constraint s
                else if known
                then update_bearer id
                    (some (s.outside.sha256 (project_bearer_prefix ++ s.outside.base64url raw)))
                    s
                else err not_found s)
              (λ _. pure (project_bearer_prefix ++ s.outside.base64url raw)))
    split true true ek et = inr (inr (raw, refl, et))
    split true false ek et = stored-Rotated id s raw _ _ _ refl ek et
    split false taken ek et = inl ek

-- After a bearer is set, the new one authenticates the project and no token with another digest does;
-- setting fails only where there is no such project, no random bytes, or a digest that another project
-- holds.
pub set_project_bearer-Rotated :
    (id : ℕ) (s : Store) → Rotated id s (s.outside.random s.draws) (set_project_bearer id s)
unfolding set_project_bearer tx_set_project_bearer ◌>>=◌
set_project_bearer-Rotated id s =
    rolled (set_drawn id (s.outside.random s.draws) (record s { draws = suc s.draws }))
      (set_drawn-Rotated id (s.outside.random s.draws) (record s { draws = suc s.draws }))
  where
    rolled :
        (o : Outcome Text)
        → Rotated id s (s.outside.random s.draws) o
        → Rotated id s (s.outside.random s.draws) (roll_back s.db o)
    rolled (ok token t) h = h
    rolled (err e t) h = h

-- No token authenticates the project; an error means that there is no such project.
abbrev pub Revoked : ℕ → Store → Outcome (Unit {0}) → Type 0
Revoked id before (ok t s) = (other : Text) → answered (project_by_bearer other s) ≢ some id
Revoked id before (err e s) = any (project_with_id id) before.db.projects ≡ false

-- After a bearer is revoked no token authenticates the project; revoking fails only where there is no
-- such project.
pub revoke_project_bearer-Revoked : (id : ℕ) (s : Store) → Revoked id s (revoke_project_bearer id s)
unfolding revoke_project_bearer tx_revoke_project_bearer update_bearer ◌>>=◌
revoke_project_bearer-Revoked id s = split (any (project_with_id id) s.db.projects) refl
  where
    split :
        (known : Bool)
        → any (project_with_id id) s.db.projects ≡ known
        → Revoked id s (roll_back s.db (if known then update_bearer id none s else err not_found s))
    split true e = λ other.
        unanswered _ id other (find-replaced id none (s.outside.sha256 other) s.db.projects refl)
    split false e = e
