-- ===== src/Store/Trail.antt =====
-- internal/store/ledger.go and `ledger.Write`: one row of evidence.
use authstunt.Prelude.{ℕ, ◌∷◌}
use authstunt.Ledger.Events.{Event, Entry, detail}
use authstunt.Store.Monad.{M, ok, ◌>>=◌, now, with_tx}

pub record Meta : Type 0 where
  pub project_id : ℕ
  pub run_id : ℕ
  pub persona_id : ℕ

unfoldable pub insert_entry : Entry → M (Unit {0})
insert_entry e s = ok tt (record s { db = record s.db { ledger = e ∷ s.db.ledger } })

unfoldable pub append_ledger : Meta → Event → M (Unit {0})
append_ledger m e = do
  ts ← now
  insert_entry (record {
    project_id = m.project_id;
    run_id = m.run_id;
    persona_id = m.persona_id;
    ts = ts;
    event = e;
  })

-- `ledger.Write`, inside the caller's transaction and in one of its own.
unfoldable pub tx_write : Meta → Event → M (Unit {0})
tx_write m e = append_ledger m (detail e)

unfoldable pub write : Meta → Event → M (Unit {0})
write m e = with_tx (tx_write m e)
