-- ===== src/Store/Identities.antt =====
-- internal/store/identities.go: the addresses that the project owns.
use authstunt.Prelude.{
  ℕ, Text, Bool, true, false, none, some, List, [], ◌∷◌, not, length, ltb, ◌==◌, ◌&&◌, ◌||◌,
  if◌then◌else◌, any, find, select, sort_by, update_where, text_eq,
}
use authstunt.Store.Models.{Identity, Mode, is_pooled}
use authstunt.Store.Monad.{
  M, ok, err, not_found, invalid, constraint, ◌>>=◌, ◌>>◌, pure, guard, or_fail, query, outside,
  modify, now, new_id, with_tx,
}
use authstunt.Store.Address.{normalize_address, same_addr}

pub record NewIdentity : Type 0 where
  pub project_id : ℕ
  pub persona_id : ℕ
  pub addr : Text
  pub role : Text
  pub mode : Mode

-- An ephemeral identity has no persona, and a pooled one has.
unfoldable pub persona_fits : Mode → ℕ → Bool
persona_fits Mode.ephemeral persona = persona == 0
persona_fits Mode.pooled persona = not (persona == 0)
persona_fits Mode.unknown persona = false

unfoldable pub is_empty : Text → Bool
is_empty [] = true
is_empty (c ∷ s) = false

-- The primary key and the unique address.
unfoldable pub identity_clash : Identity → Identity → Bool
identity_clash i j = j.id == i.id || same_addr j.addr i.addr

abbrev pub identity_conflicts : Identity → List Identity → Bool
identity_conflicts i = any (identity_clash i)

unfoldable pub insert_identity : Identity → M (Unit {0})
insert_identity i s =
    if identity_conflicts i s.db.identities
    then err constraint s
    else ok tt (record s { db = record s.db { identities = i ∷ s.db.identities } })

unfoldable pub normalize : Text → M Text
normalize addr = outside λ o. normalize_address o.to_ascii addr

unfoldable pub tx_create_identity : NewIdentity → M Identity
tx_create_identity n = do
  guard (persona_fits n.mode n.persona_id) invalid
  guard (not (n.project_id == 0)) invalid
  addr ← normalize n.addr
  guard (not (is_empty addr)) invalid
  id ← new_id
  created ← now
  let i = identity id addr created
  insert_identity i
  pure i
  where
    identity : ℕ → Text → ℕ → Identity
    identity id addr created = record {
      id = id;
      project_id = n.project_id;
      persona_id = n.persona_id;
      addr = addr;
      role = n.role;
      mode = n.mode;
      cooldown_until = none;
      created_at = created;
    }

unfoldable pub create_identity : NewIdentity → M Identity
create_identity n = with_tx (tx_create_identity n)

unfoldable pub identity_by_id : ℕ → M Identity
identity_by_id id = do
  row ← query (λ db. find (λ i. i.id == id) db.identities)
  or_fail row not_found

unfoldable pub identity_by_addr : Text → M Identity
identity_by_addr raw = do
  addr ← normalize raw
  row ← query (λ db. find (λ i. same_addr i.addr addr) db.identities)
  or_fail row not_found

-- `ORDER BY created_at, id`.
unfoldable pub created_before : Identity → Identity → Bool
created_before i j =
    ltb i.created_at j.created_at || (i.created_at == j.created_at && ltb i.id j.id)

unfoldable pub is_candidate : ℕ → Text → Identity → Bool
is_candidate project role i = i.project_id == project && is_pooled i.mode && text_eq i.role role

unfoldable pub list_pooled_identities : ℕ → Text → M (List Identity)
list_pooled_identities project role =
    query (λ db. sort_by created_before (select (is_candidate project role) db.identities))

unfoldable pub count_pooled_identities : ℕ → M ℕ
count_pooled_identities project =
    query (λ db. length (select (λ i. i.project_id == project && is_pooled i.mode) db.identities))

unfoldable pub cool_until : ℕ → Identity → Identity
cool_until until i = record i { cooldown_until = some until }

unfoldable pub set_cooldown : ℕ → ℕ → M (Unit {0})
set_cooldown id until = modify (λ db. record db {
  identities = update_where (λ i. i.id == id && is_pooled i.mode) (cool_until until) db.identities;
})
