-- ===== src/Store/Evidence.antt =====
-- What a call writes, up to the times of the rows: the tables that it leaves, and the rows of the ledger
-- as the events that they record (internal/store/tx.go and ledger.go).
use authstunt.Prelude.{ℕ, ◌≡◌, refl, sym, ap, subst, List, [], ◌∷◌, map}
use authstunt.Ledger.Events.{Event, Entry, detail}
use authstunt.Store.Models.{Message, Binding, Lease, Identity}
use authstunt.Store.Monad.{
  Db, Store, Error, Outcome, M, ok, err, after, pure, fail, roll_back, with_tx, continue, ◌>>=◌,
  handle, try,
}
use authstunt.Store.Trail.{Meta, insert_entry, append_ledger, tx_write}
use authstunt.Store.Keeps.{Keeps, Keeps-now}
use authstunt.Store.Triple.{Returned, Triple, Triple-keeps, Triple-bind}

-- A row of the ledger without its time.
abbrev pub Evidence : Type 0
Evidence = Meta × Event

unfoldable pub evidence : Entry → Evidence
evidence e =
    (record { project_id = e.project_id; run_id = e.run_id; persona_id = e.persona_id }, e.event)

-- The ledger, newest first.
unfoldable pub trail : Db → List Evidence
unfolding evidence
trail db = map evidence db.ledger

-- A list put in front of another, its last element first.
unfoldable pub push : {A : Type 0} → List A → List A → List A
push [] ys = ys
push (x ∷ xs) ys = push xs (x ∷ ys)

pub record Tables : Type 0 where
  pub messages : List Message
  pub bindings : List Binding
  pub leases : List Lease
  pub identities : List Identity
  pub trail : List Evidence

unfoldable pub tables : Db → Tables
tables db = record {
  messages = db.messages;
  bindings = db.bindings;
  leases = db.leases;
  identities = db.identities;
  trail = trail db;
}

abbrev pub At : Tables → Db → Type 0
At ts db = tables db ≡ ts

pub tx_write-At :
    (ts : Tables) (m : Meta) (e : Event)
    → Triple (At ts) (tx_write m e) (λ _. At (record ts { trail = (m, detail e) ∷ ts.trail }))
unfolding tx_write append_ledger insert_entry tables trail
tx_write-At ts m e = Triple-bind _ _ (Triple-keeps _ Keeps-now (λ _ db p. p)) (λ t. row t)
  where
    row :
        (t : ℕ)
        → Triple
            (At ts)
            (insert_entry (record {
              project_id = m.project_id;
              run_id = m.run_id;
              persona_id = m.persona_id;
              ts = t;
              event = detail e;
            }))
            (λ _. At (record ts { trail = (m, detail e) ∷ ts.trail }))
    row t = record {
      at = λ s p. ap (λ (x : Tables). record x { trail = (m, detail e) ∷ x.trail }) p;
    }

Returned-both :
    {A : Type 0} (Q R : A → Db → Type 0) (o : Outcome A)
    → Returned Q o
    → Returned R o
    → Returned (λ a db. Q a db × R a db) o
Returned-both Q R (ok a s) q r = (q, r)
Returned-both Q R (err e s) q r = tt

-- Two results of one call.
pub Triple-both :
    {A : Type 0} {P P' : Db → Type 0} {Q R : A → Db → Type 0} (m : M A)
    → Triple P m Q
    → Triple P' m R
    → Triple (λ db. P db × P' db) m (λ a db. Q a db × R a db)
Triple-both {Q} {R} m h k = record { at = λ s p. Returned-both Q R (m s) (h.at s p.0) (k.at s p.1) }

-- Where the call returns, `Q`; where it fails, the tables are as they were.
abbrev pub Done : {A : Type 0} → (A → Db → Type 0) → Db → Outcome A → Type 0
Done Q db (ok a s) = Q a s.db
Done Q db (err e s) = s.db ≡ db

pub record AllOrNothing {A : Type 0} (P : Db → Type 0) (m : M A) (Q : A → Db → Type 0)
    : Type 0 where
  pub at : (s : Store) → P s.db → Done Q s.db (m s)

roll_back-Done :
    {A : Type 0} (Q : A → Db → Type 0) (db : Db) (o : Outcome A)
    → Returned Q o
    → Done Q db (roll_back db o)
unfolding roll_back
roll_back-Done Q db (ok a s) h = h
roll_back-Done Q db (err e s) h = refl

module _ {A : Type 0} {P : Db → Type 0} {Q : A → Db → Type 0} where
  pub AllOrNothing-with_tx : (m : M A) → Triple P m Q → AllOrNothing P (with_tx m) Q
  unfolding with_tx
  AllOrNothing-with_tx m h = record { at = λ s p. roll_back-Done Q s.db (m s) (h.at s p) }

  pub AllOrNothing-pure : (a : A) → ((db : Db) → P db → Q a db) → AllOrNothing P (pure a) Q
  unfolding pure
  AllOrNothing-pure a h = record { at = λ s p. h s.db p }

  pub AllOrNothing-fail : (e : Error) → AllOrNothing P (fail e) Q
  unfolding fail
  AllOrNothing-fail e = record { at = λ s p. refl }

module _ {A B : Type 0} {P : Db → Type 0} {Q : B → Db → Type 0} where
  -- A call before it that writes nothing.
  pub AllOrNothing-read :
      (m : M A) (f : A → M B)
      → ((db : Db) → Keeps (λ x. x ≡ db) m)
      → ((a : A) → AllOrNothing P (f a) Q)
      → AllOrNothing P (m >>= f) Q
  unfolding ◌>>=◌
  AllOrNothing-read m f same k = record { at = λ s p. next s p (m s) ((same s.db).at s refl) }
    where
      next :
          (s : Store) → P s.db → (o : Outcome A) → (after o).db ≡ s.db → Done Q s.db (continue o f)
      next s p (ok a t) e = subst (λ db. Done Q db (f a t)) e ((k a).at t (subst P (sym e) p))
      next s p (err x t) e = e

  -- A failure is handled in the tables as they were.
  pub AllOrNothing-try :
      (R : A → Db → Type 0) (m : M A) (handler : Error → M B) (k : A → B)
      → AllOrNothing P m R
      → ((e : Error) → AllOrNothing P (handler e) Q)
      → ((a : A) (db : Db) → R a db → Q (k a) db)
      → AllOrNothing P (try m handler (λ a. pure (k a))) Q
  unfolding try handle pure
  AllOrNothing-try R m handler k h kh kk = record { at = λ s p. next s p (m s) (h.at s p) }
    where
      next :
          (s : Store)
          → P s.db
          → (o : Outcome A) → Done R s.db o
          → Done Q s.db (handle o handler (λ a. pure (k a)))
      next s p (ok a t) r = kk a t.db r
      next s p (err x t) e =
          subst (λ db. Done Q db (handler x t)) e ((kh x).at t (subst P (sym e) p))
