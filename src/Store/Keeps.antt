-- ===== src/Store/Keeps.antt =====
-- Invariants of the tables, one rule for each way to build a call.
use authstunt.Prelude.{Bool, true, false, Option, none, some, if◌then◌else◌}
use authstunt.Store.Monad.{
  Db, Store, Outside, Error, Outcome, M, ok, err, after, pure, fail, guard, or_fail, query, outside,
  modify, wall_now, new_id, random_bytes, now, roll_back, with_tx, continue, ◌>>=◌, handle, try,
}

-- `m` keeps `P` of the tables, whether it returns or fails.
pub record Keeps {A : Type 0} (P : Db → Type 0) (m : M A) : Type 0 where
  pub at : (s : Store) → P s.db → P (after (m s)).db

roll_back-keeps :
    {A : Type 0} (P : Db → Type 0) (db : Db) (o : Outcome A)
    → P db
    → P (after o).db
    → P (after (roll_back db o)).db
unfolding roll_back
roll_back-keeps P db (ok a s) before h = h
roll_back-keeps P db (err e s) before h = before

module _ {A : Type 0} {P : Db → Type 0} where
  pub Keeps-pure : (a : A) → Keeps P (pure a)
  unfolding pure
  Keeps-pure a = record { at = λ s h. h }

  pub Keeps-fail : (e : Error) → Keeps P (fail {A = A} e)
  unfolding fail
  Keeps-fail e = record { at = λ s h. h }

  pub Keeps-or_fail : (o : Option A) (e : Error) → Keeps P (or_fail o e)
  unfolding or_fail
  Keeps-or_fail none e = record { at = λ s h. h }
  Keeps-or_fail (some a) e = record { at = λ s h. h }

  pub Keeps-query : (f : Db → A) → Keeps P (query f)
  unfolding query
  Keeps-query f = record { at = λ s h. h }

  pub Keeps-outside : (f : Outside → A) → Keeps P (outside f)
  unfolding outside
  Keeps-outside f = record { at = λ s h. h }

  pub Keeps-if : (b : Bool) (m n : M A) → Keeps P m → Keeps P n → Keeps P (if b then m else n)
  Keeps-if true m n km kn = km
  Keeps-if false m n km kn = kn

  -- A transaction keeps what its body keeps, also where it rolls back.
  pub Keeps-with_tx : (m : M A) → Keeps P m → Keeps P (with_tx m)
  unfolding with_tx
  Keeps-with_tx m km = record { at = λ s h. roll_back-keeps P s.db (m s) h (km.at s h) }

module _ {P : Db → Type 0} where
  pub Keeps-guard : (b : Bool) (e : Error) → Keeps P (guard b e)
  unfolding guard
  Keeps-guard true e = record { at = λ s h. h }
  Keeps-guard false e = record { at = λ s h. h }

  pub Keeps-modify : (f : Db → Db) → ((db : Db) → P db → P (f db)) → Keeps P (modify f)
  unfolding modify
  Keeps-modify f kf = record { at = λ s h. kf s.db h }

  pub Keeps-wall_now : Keeps P wall_now
  unfolding wall_now
  Keeps-wall_now = record { at = λ s h. h }

  pub Keeps-now : Keeps P now
  unfolding now
  Keeps-now = record { at = λ s h. h }

  pub Keeps-new_id : Keeps P new_id
  unfolding new_id
  Keeps-new_id = record { at = λ s h. h }

  pub Keeps-random_bytes : Keeps P random_bytes
  unfolding random_bytes
  Keeps-random_bytes = record { at = λ s h. h }

module _ {A B : Type 0} {P : Db → Type 0} where
  continue-keeps :
      (o : Outcome A) (f : A → M B)
      → ((a : A) → Keeps P (f a))
      → P (after o).db
      → P (after (continue o f)).db
  unfolding continue
  continue-keeps (ok a s) f kf h = (kf a).at s h
  continue-keeps (err e s) f kf h = h

  pub Keeps-bind :
      (m : M A) (f : A → M B) → Keeps P m → ((a : A) → Keeps P (f a)) → Keeps P (m >>= f)
  unfolding ◌>>=◌
  Keeps-bind m f km kf = record { at = λ s h. continue-keeps (m s) f kf (km.at s h) }

module _ {A B : Type 0} {P : Db → Type 0} where
  handle-keeps :
      (o : Outcome A) (handler : Error → M B) (k : A → M B)
      → ((e : Error) → Keeps P (handler e))
      → ((a : A) → Keeps P (k a))
      → P (after o).db
      → P (after (handle o handler k)).db
  unfolding handle
  handle-keeps (ok a s) handler k kh kk h = (kk a).at s h
  handle-keeps (err e s) handler k kh kk h = (kh e).at s h

  pub Keeps-try :
      (m : M A) (handler : Error → M B) (k : A → M B)
      → Keeps P m
      → ((e : Error) → Keeps P (handler e))
      → ((a : A) → Keeps P (k a))
      → Keeps P (try m handler k)
  unfolding try
  Keeps-try m handler k km kh kk = record {
    at = λ s h. handle-keeps (m s) handler k kh kk (km.at s h);
  }

pub ruleset keeps_rules = (
  Keeps-pure, Keeps-fail, Keeps-or_fail, Keeps-query, Keeps-outside, Keeps-if, Keeps-with_tx,
  Keeps-guard, Keeps-wall_now, Keeps-now, Keeps-new_id, Keeps-random_bytes, Keeps-bind, Keeps-try,
)
