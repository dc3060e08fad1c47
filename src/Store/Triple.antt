-- ===== src/Store/Triple.antt =====
-- What a call returns: where the tables satisfy `P` and the call returns, its result and the tables
-- satisfy `Q`. A call that fails promises nothing.
use authstunt.Prelude.{◌≡◌, refl, subst, Bool, true, false, Option, none, some, if◌then◌else◌}
use authstunt.Store.Monad.{
  Db, Store, Outside, Error, Outcome, M, ok, err, after, pure, fail, guard, or_fail, query, outside,
  modify, roll_back, with_tx, continue, ◌>>=◌, handle, try,
}
use authstunt.Store.Keeps.{Keeps}

abbrev pub Returned : {A : Type 0} → (A → Db → Type 0) → Outcome A → Type 0
Returned Q (ok a s) = Q a s.db
Returned Q (err e s) = Unit {0}

pub record Triple {A : Type 0} (P : Db → Type 0) (m : M A) (Q : A → Db → Type 0) : Type 0 where
  pub at : (s : Store) → P s.db → Returned Q (m s)

-- Nothing is asked of the tables.
abbrev pub Anything : Db → Type 0
Anything db = Unit {0}

roll_back-Returned :
    {A : Type 0} (Q : A → Db → Type 0) (db : Db) (o : Outcome A)
    → Returned Q o
    → Returned Q (roll_back db o)
unfolding roll_back
roll_back-Returned Q db (ok a s) h = h
roll_back-Returned Q db (err e s) h = tt

module _ {A B : Type 0} (R : A → Db → Type 0) (Q : B → Db → Type 0) where
  continue-Returned :
      (o : Outcome A) (f : A → M B)
      → Returned R o
      → ((a : A) → Triple (R a) (f a) Q)
      → Returned Q (continue o f)
  unfolding continue
  continue-Returned (ok a s) f h k = (k a).at s h
  continue-Returned (err e s) f h k = tt

  handle-Returned :
      (o : Outcome A) (handler : Error → M B) (k : A → M B)
      → Returned R o
      → ((e : Error) → Triple Anything (handler e) Q)
      → ((a : A) → Triple (R a) (k a) Q)
      → Returned Q (handle o handler k)
  unfolding handle
  handle-Returned (ok a s) handler k h kh kk = (kk a).at s h
  handle-Returned (err e s) handler k h kh kk = (kh e).at s tt

module _ {A : Type 0} {P : Db → Type 0} {Q : A → Db → Type 0} where
  pub Triple-pure : (a : A) → ((db : Db) → P db → Q a db) → Triple P (pure a) Q
  unfolding pure
  Triple-pure a h = record { at = λ s p. h s.db p }

  pub Triple-fail : (e : Error) → Triple P (fail e) Q
  unfolding fail
  Triple-fail e = record { at = λ s p. tt }

  pub Triple-or_fail :
      (o : Option A) (e : Error)
      → ((a : A) → o ≡ some a → (db : Db) → P db → Q a db)
      → Triple P (or_fail o e) Q
  unfolding or_fail
  Triple-or_fail none e h = record { at = λ s p. tt }
  Triple-or_fail (some a) e h = record { at = λ s p. h a refl s.db p }

  pub Triple-query : (f : Db → A) → ((db : Db) → P db → Q (f db) db) → Triple P (query f) Q
  unfolding query
  Triple-query f h = record { at = λ s p. h s.db p }

  pub Triple-outside :
      (f : Outside → A) → ((o : Outside) (db : Db) → P db → Q (f o) db) → Triple P (outside f) Q
  unfolding outside
  Triple-outside f h = record { at = λ s p. h s.outside s.db p }

  pub Triple-if :
      (b : Bool) (m n : M A)
      → (b ≡ true → Triple P m Q)
      → (b ≡ false → Triple P n Q)
      → Triple P (if b then m else n) Q
  Triple-if true m n hm hn = hm refl
  Triple-if false m n hm hn = hn refl

  pub Triple-with_tx : (m : M A) → Triple P m Q → Triple P (with_tx m) Q
  unfolding with_tx
  Triple-with_tx m h = record { at = λ s p. roll_back-Returned Q s.db (m s) (h.at s p) }

  kept : (o : Outcome A) → ((a : A) (db : Db) → P db → Q a db) → P (after o).db → Returned Q o
  kept (ok a s) h p = h a s.db p
  kept (err e s) h p = tt

  -- A call that keeps `P`, whatever it returns.
  pub Triple-keeps : (m : M A) → Keeps P m → ((a : A) (db : Db) → P db → Q a db) → Triple P m Q
  Triple-keeps m k h = record { at = λ s p. kept (m s) h (k.at s p) }

module _ {P : Db → Type 0} where
  pub Triple-guard : (b : Bool) (e : Error) → Triple P (guard b e) (λ _ db. (b ≡ true) × P db)
  unfolding guard
  Triple-guard true e = record { at = λ s p. (refl, p) }
  Triple-guard false e = record { at = λ s p. tt }

  pub Triple-modify :
      {Q : Unit {0} → Db → Type 0} (f : Db → Db)
      → ((db : Db) → P db → Q tt (f db))
      → Triple P (modify f) Q
  unfolding modify
  Triple-modify f h = record { at = λ s p. h s.db p }

module _ {A B : Type 0} {P : Db → Type 0} {R : A → Db → Type 0} {Q : B → Db → Type 0} where
  pub Triple-bind :
      (m : M A) (f : A → M B)
      → Triple P m R
      → ((a : A) → Triple (R a) (f a) Q)
      → Triple P (m >>= f) Q
  unfolding ◌>>=◌
  Triple-bind m f h k = record { at = λ s p. continue-Returned R Q (m s) f (h.at s p) k }

module _ {A B : Type 0} {P : Db → Type 0} {Q : B → Db → Type 0} where
  -- Nothing that the first call establishes is used.
  pub Triple-then :
      (m : M A) (f : A → M B) → ((a : A) → Triple Anything (f a) Q) → Triple P (m >>= f) Q
  Triple-then m f k = Triple-bind m f (record { at = λ s p. forget (m s) }) k
    where
      forget : (o : Outcome A) → Returned (λ _. Anything) o
      forget (ok a s) = tt
      forget (err e s) = tt

  pub Triple-try :
      (R : A → Db → Type 0) (m : M A) (handler : Error → M B) (k : A → M B)
      → Triple P m R
      → ((e : Error) → Triple Anything (handler e) Q)
      → ((a : A) → Triple (R a) (k a) Q)
      → Triple P (try m handler k) Q
  unfolding try
  Triple-try R m handler k h kh kk = record {
    at = λ s p. handle-Returned R Q (m s) handler k (h.at s p) kh kk;
  }

-- A fact that is not about the tables stays.
pub Triple-static : {A : Type 0} {X : Type 0} (m : M A) → Triple (λ _. X) m (λ _ _. X)
Triple-static {X} m = record { at = λ s p. stays (m s) p }
  where
    stays : {A : Type 0} (o : Outcome A) → X → Returned (λ _ _. X) o
    stays (ok a s) x = x
    stays (err e s) x = tt

-- A fact that is not about the tables may be used to choose the proof of the rest.
pub Triple-at :
    {A : Type 0} {X : Type 0} {m : M A} {Q : A → Db → Type 0}
    → (X → Triple Anything m Q)
    → Triple (λ _. X) m Q
Triple-at h = record { at = λ s x. (h x).at s tt }

-- The same, beside what is known of the tables.
pub Triple-with :
    {A : Type 0} {P : Db → Type 0} (X : Type 0) {m : M A} {Q : A → Db → Type 0}
    → (X → Triple P m Q)
    → Triple (λ db. P db × X) m Q
Triple-with X h = record { at = λ s p. (h p.1).at s p.0 }

Returned-mono :
    {A : Type 0} (Q R : A → Db → Type 0) (o : Outcome A)
    → ((a : A) (db : Db) → Q a db → R a db)
    → Returned Q o
    → Returned R o
Returned-mono Q R (ok a s) h q = h a s.db q
Returned-mono Q R (err e s) h q = tt

-- A weaker result.
pub Triple-post :
    {A : Type 0} {P : Db → Type 0} {Q R : A → Db → Type 0} (m : M A)
    → Triple P m Q
    → ((a : A) (db : Db) → Q a db → R a db)
    → Triple P m R
Triple-post {Q} {R} m t h = record { at = λ s p. Returned-mono Q R (m s) h (t.at s p) }

-- What a call that returned has established.
pub returned :
    {A : Type 0} {P : Db → Type 0} {Q : A → Db → Type 0} (m : M A) (s t : Store) (a : A)
    → Triple P m Q
    → P s.db
    → m s ≡ ok a t
    → Q a t.db
returned {Q} m s t a h p e = subst (Returned Q) e (h.at s p)
