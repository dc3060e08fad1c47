-- ===== src/Store/Runs.antt =====
-- internal/store/runs.go: test executions and their tokens.
use authstunt.Prelude.{
  ℕ, ◌+◌, Text, Bool, true, false, none, some, List, [], ◌∷◌, ◌++◌, not, length, ltb, leb, ◌==◌,
  ◌&&◌, ◌||◌, if◌then◌else◌, any, find, select, update_where, text_eq,
}
use authstunt.Store.Models.{Run, RunState, run_is_active}
use authstunt.Store.Monad.{
  M, ok, err, not_found, run_not_active, invalid, constraint, ◌>>=◌, ◌>>◌, pure, guard, or_fail,
  query, outside, modify, now, new_id, random_bytes, with_tx,
}
use authstunt.Store.Leases.{release_run_leases}

pub record NewRun : Type 0 where
  pub project_id : ℕ
  pub ttl : ℕ

-- "rt_"
abbrev pub run_token_prefix : Text
run_token_prefix = b'r' ∷ b't' ∷ b'_' ∷ []

-- `HashRunToken`.
unfoldable pub hash_run_token : Text → M Text
hash_run_token token = outside λ o. o.sha256 token

unfoldable pub run_token : Text → M Text
run_token raw = outside λ o. run_token_prefix ++ o.base64url raw

-- The primary key and the unique digest.
unfoldable pub run_clash : Run → Run → Bool
run_clash r q = q.id == r.id || text_eq q.token_hash r.token_hash

abbrev pub run_conflicts : Run → List Run → Bool
run_conflicts r = any (run_clash r)

unfoldable pub insert_run : Run → M (Unit {0})
insert_run r s =
    if run_conflicts r s.db.runs
    then err constraint s
    else ok tt (record s { db = record s.db { runs = r ∷ s.db.runs } })

unfoldable pub new_run : NewRun → ℕ → Text → ℕ → Run
new_run n id digest at = record {
  id = id;
  project_id = n.project_id;
  token_hash = digest;
  state = RunState.active;
  fail_reason = [];
  checkpoint_at = at;
  started_at = at;
  expires_at = at + n.ttl;
  ended_at = none;
}

unfoldable pub tx_create_run : NewRun → M (Run × Text)
tx_create_run n = do
  guard (not (n.project_id == 0)) invalid
  guard (ltb 0 n.ttl) invalid
  drawn ← random_bytes
  raw ← or_fail drawn constraint
  token ← run_token raw
  digest ← hash_run_token token
  at ← now
  id ← new_id
  insert_run (new_run n id digest at)
  pure (new_run n id digest at, token)

unfoldable pub create_run : NewRun → M (Run × Text)
create_run n = with_tx (tx_create_run n)

unfoldable pub run_by_id : ℕ → M Run
run_by_id id = do row ← query (λ db. find (λ r. r.id == id) db.runs); or_fail row not_found

unfoldable pub run_by_token : Text → M Run
run_by_token token = do
  digest ← hash_run_token token
  row ← query (λ db. find (λ r. text_eq r.token_hash digest) db.runs)
  or_fail row not_found

unfoldable pub same_state : RunState → RunState → Bool
same_state RunState.active RunState.active = true
same_state RunState.complete RunState.complete = true
same_state RunState.failed RunState.failed = true
same_state RunState.expired RunState.expired = true
same_state _ _ = false

unfoldable pub finish : RunState → Text → ℕ → Run → Run
finish state reason at r = record r { state = state; fail_reason = reason; ended_at = some at }

abbrev pub active_with_id : ℕ → Run → Bool
active_with_id id r = r.id == id && run_is_active r.state

unfoldable pub update_run : ℕ → RunState → Text → ℕ → M (Unit {0})
update_run id state reason at =
    modify
      (λ db. record db { runs = update_where (active_with_id id) (finish state reason at) db.runs })

-- Ending a run twice the same way is no error.
unfoldable pub end_again : ℕ → RunState → M (Unit {0})
end_again id state = do
  row ← query (λ db. find (λ r. r.id == id) db.runs)
  r ← or_fail row not_found
  guard (same_state r.state state) run_not_active

unfoldable pub tx_end_run : ℕ → RunState → Text → M (Unit {0})
tx_end_run id state reason = do
  guard (not (run_is_active state)) invalid
  at ← now
  affected ← query (λ db. any (active_with_id id) db.runs)
  update_run id state reason at
  if affected then release_run_leases id at else end_again id state

unfoldable pub end_run : ℕ → RunState → Text → M (Unit {0})
end_run id state reason = with_tx (tx_end_run id state reason)

-- "run ttl elapsed"
abbrev pub ttl_elapsed : Text
ttl_elapsed =
    b'r' ∷ b'u' ∷ b'n' ∷ b' ' ∷ b't' ∷ b't' ∷ b'l' ∷ b' ' ∷ b'e' ∷ b'l' ∷ b'a' ∷ b'p' ∷ b's' ∷ b'e'
    ∷ b'd' ∷ []

unfoldable pub expire_each : List Run → M (Unit {0})
expire_each [] = pure tt
expire_each (r ∷ rs) = do tx_end_run r.id RunState.expired ttl_elapsed; expire_each rs

abbrev pub active_past : ℕ → Run → Bool
active_past at r = run_is_active r.state && leb r.expires_at at

unfoldable pub expire_runs : M ℕ
expire_runs = with_tx (do
  at ← now
  due ← query (λ db. select (active_past at) db.runs)
  expire_each due
  pure (length due))
