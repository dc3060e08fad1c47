-- ===== src/Store/Projects.antt =====
-- internal/store/projects.go: projects, the bearer of each, and its allowlist; with the counter of
-- internal/store/events.go.
pub mod Bearers
pub mod Order
use authstunt.Prelude.{
  ℕ, suc, ◌+◌, Text, Bool, true, false, Option, none, some, List, [], ◌∷◌, ◌++◌, not, ltb, ◌==◌,
  ◌&&◌, ◌||◌, if◌then◌else◌, any, find, select, take, map, update_where, sort_by, text_eq,
}
use authstunt.Store.Models.{Project, Pattern}
use authstunt.Store.Monad.{
  M, ok, err, not_found, invalid, constraint, no_project, multiple_projects, ◌>>=◌, ◌>>◌, pure,
  fail, guard, or_fail, query, outside, modify, now, new_id, random_bytes, with_tx,
}
use authstunt.Store.Address.{same_addr, canonical_pattern}
use authstunt.Store.Identities.{is_empty}

-- "pb_"
abbrev pub project_bearer_prefix : Text
project_bearer_prefix = b'p' ∷ b'b' ∷ b'_' ∷ []

unfoldable pub hash_project_bearer : Text → M Text
hash_project_bearer token = outside λ o. o.sha256 token

unfoldable pub project_bearer : Text → M Text
project_bearer raw = outside λ o. project_bearer_prefix ++ o.base64url raw

unfoldable pub has_digest : Text → Project → Bool
unfolding text_eq
has_digest digest p = elim p.bearer_hash [ none ↦ false | some held ↦ text_eq held digest ]

abbrev pub project_with_id : ℕ → Project → Bool
project_with_id id p = p.id == id

unfoldable pub with_bearer : Option Text → Project → Project
with_bearer digest p = record p { bearer_hash = digest }

unfoldable pub update_bearer : ℕ → Option Text → M (Unit {0})
unfolding update_where with_bearer
update_bearer id digest = modify λ db. record db {
  projects = update_where (project_with_id id) (with_bearer digest) db.projects;
}

-- The unique index on the digests: another project holds this one.
unfoldable pub digest_taken : ℕ → Text → List Project → Bool
unfolding any has_digest
digest_taken id digest ps =
    any (project_with_id id) ps && any (λ p. not (p.id == id) && has_digest digest p) ps

unfoldable pub store_bearer : ℕ → Text → M (Unit {0})
unfolding digest_taken update_bearer
store_bearer id digest s =
    if digest_taken id digest s.db.projects
    then err constraint s
    else if any (project_with_id id) s.db.projects
    then update_bearer id (some digest) s
    else err not_found s

-- With the bytes that were drawn.
unfoldable pub set_drawn : ℕ → Option Text → M Text
set_drawn id none = fail constraint
set_drawn id (some raw) = do
  token ← project_bearer raw
  digest ← hash_project_bearer token
  store_bearer id digest
  pure token

unfoldable pub tx_set_project_bearer : ℕ → M Text
tx_set_project_bearer id = do drawn ← random_bytes; set_drawn id drawn

unfoldable pub set_project_bearer : ℕ → M Text
set_project_bearer id = with_tx (tx_set_project_bearer id)

unfoldable pub tx_revoke_project_bearer : ℕ → M (Unit {0})
unfolding update_bearer any
tx_revoke_project_bearer id s =
    if any (project_with_id id) s.db.projects then update_bearer id none s else err not_found s

unfoldable pub revoke_project_bearer : ℕ → M (Unit {0})
revoke_project_bearer id = with_tx (tx_revoke_project_bearer id)

unfoldable pub has_some : Project → Bool
has_some p = elim p.bearer_hash [ none ↦ false | some digest ↦ not (is_empty digest) ]

unfoldable pub project_has_bearer : ℕ → M Bool
unfolding has_some
project_has_bearer id = do
  row ← query (λ db. find (project_with_id id) db.projects)
  p ← or_fail row not_found
  pure (has_some p)

unfoldable pub project_by_bearer : Text → M Project
project_by_bearer token = do
  guard (not (is_empty token)) not_found
  digest ← hash_project_bearer token
  row ← query (λ db. find (has_digest digest) db.projects)
  or_fail row not_found

-- The primary key and the unique name.
unfoldable pub project_clash : Project → Project → Bool
project_clash p q = q.id == p.id || text_eq q.name p.name

unfoldable pub insert_project : Project → M (Unit {0})
insert_project p s =
    if any (project_clash p) s.db.projects
    then err constraint s
    else ok tt (record s { db = record s.db { projects = p ∷ s.db.projects } })

unfoldable pub new_project : ℕ → Text → ℕ → Project
new_project id name at = record { id = id; name = name; created_at = at; bearer_hash = none }

unfoldable pub create_project : Text → M Project
create_project name = do
  id ← new_id
  at ← now
  insert_project (new_project id name at)
  pure (new_project id name at)

unfoldable pub project_by_name : Text → M Project
project_by_name name = do
  row ← query (λ db. find (λ p. text_eq p.name name) db.projects)
  or_fail row not_found

unfoldable pub project : ℕ → M Project
project id = do row ← query (λ db. find (project_with_id id) db.projects); or_fail row not_found

-- `ORDER BY created_at, id`.
unfoldable pub created_before : Project → Project → Bool
created_before p q =
    ltb p.created_at q.created_at || (p.created_at == q.created_at && ltb p.id q.id)

unfoldable pub one_of : List Project → M Project
one_of [] = fail no_project
one_of (p ∷ []) = pure p
one_of (p ∷ q ∷ ps) = fail multiple_projects

unfoldable pub single_project : M Project
unfolding sort_by created_before
single_project = do found ← query (λ db. take 2 (sort_by created_before db.projects)); one_of found

unfoldable pub list_projects : M (List Project)
list_projects = query (λ db. sort_by created_before db.projects)

-- The patterns, or nothing where one cannot be used.
unfoldable pub canonical_patterns : (Text → Option Text) → List Text → Option (List Text)
unfolding canonical_pattern
canonical_patterns to_ascii [] = some []
canonical_patterns to_ascii (p ∷ ps) = elim (canonical_pattern to_ascii p) [
  | none ↦ none
  | some c ↦ elim (canonical_patterns to_ascii ps) [ none ↦ none | some cs ↦ some (c ∷ cs) ]
]

abbrev pub of_project : ℕ → Pattern → Bool
of_project id r = r.project_id == id

unfoldable pub clear_allowlist : ℕ → M (Unit {0})
clear_allowlist id =
    modify λ db. record db { allowlist = select (λ r. not (of_project id r)) db.allowlist }

-- The primary key, whose pattern compares without case, and the foreign key.
unfoldable pub insert_pattern : Pattern → M (Unit {0})
insert_pattern r s =
    if any (λ q. q.project_id == r.project_id && same_addr q.pattern r.pattern) s.db.allowlist
      || not (any (project_with_id r.project_id) s.db.projects)
    then err constraint s
    else ok tt (record s { db = record s.db { allowlist = r ∷ s.db.allowlist } })

unfoldable pub insert_patterns : ℕ → ℕ → List Text → M (Unit {0})
unfolding insert_pattern ◌>>=◌
insert_patterns id i [] = pure tt
insert_patterns id i (p ∷ ps) = do
  insert_pattern (record { project_id = id; pattern = p; ord = i })
  insert_patterns id (suc i) ps

unfoldable pub replace_allowlist : ℕ → List Text → M (Unit {0})
replace_allowlist id patterns = do clear_allowlist id; insert_patterns id 0 patterns

unfoldable pub set_allowlist : ℕ → List Text → M (Unit {0})
set_allowlist id patterns = do
  checked ← outside (λ o. canonical_patterns o.to_ascii patterns)
  canonical ← or_fail checked invalid
  with_tx (replace_allowlist id canonical)

abbrev pub ord_before : Pattern → Pattern → Bool
ord_before r q = ltb r.ord q.ord

-- The patterns of a project in the order in which they were declared.
unfoldable pub patterns_of : ℕ → List Pattern → List Text
unfolding select sort_by
patterns_of id rows = map (λ r. r.pattern) (sort_by ord_before (select (of_project id) rows))

unfoldable pub allowlist : ℕ → M (List Text)
unfolding patterns_of
allowlist id = query (λ db. patterns_of id db.allowlist)

unfoldable pub next_event_generation : M ℕ
next_event_generation = do
  modify (λ db. record db { event_generation = db.event_generation + 1 })
  query (λ db. db.event_generation)
