-- ===== src/Store/Monad.antt =====
-- internal/store/store.go and tx.go: the tables, the clock, and transactions.
-- A call takes the store and returns an outcome with the store that it leaves behind.
use authstunt.Prelude.{
  ℕ, suc, ◌+◌, ◌-◌, ◌%◌, Text, Bool, true, false, Option, none, some, List, ltb, if◌then◌else◌,
}
use authstunt.Store.Models.{
  Run, Identity, Lease, Message, Binding, Claim, Project, Pattern, MessageRecipient,
}
use authstunt.Ledger.Events.{Entry}

-- The tables.
pub record Db : Type 0 where
  pub runs : List Run
  pub identities : List Identity
  pub leases : List Lease
  pub messages : List Message
  pub bindings : List Binding
  pub claims : List Claim
  pub ledger : List Entry
  pub projects : List Project
  pub allowlist : List Pattern
  pub event_generation : ℕ
  pub recipients : List MessageRecipient

-- What stands outside the source: the wall clock, the random ids and bytes, the encodings, the
-- digest, the IDNA profile, the sealer and the JSON decoder, which reads the fields `otp_best` and
-- `verify_link_best`. `wall n` is the n-th reading of the clock.
pub record Outside : Type 0 where
  pub wall : ℕ → ℕ
  pub ids : ℕ → ℕ
  pub random : ℕ → Option Text
  pub base64url : Text → Text
  pub sha256 : Text → Text
  pub to_ascii : Text → Option Text
  pub seal : Text → Option Text
  pub open_sealed : Text → Option Text
  pub decode_extraction : Text → Option (Text × Text)

pub record Store : Type 0 where
  pub db : Db
  pub outside : Outside
  pub last_now : ℕ
  pub readings : ℕ
  pub draws : ℕ

-- The sentinel errors of the package and its users; `invalid` is any other refusal of an argument,
-- `constraint` any other failure of a statement.
pub data Error : Type 0 where
  not_found identity_held lease_not_held run_not_active claim_taken claim_window_closed invalid
        constraint unreadable_message pooled_policy_missing no_identity_available unsupported_kind
        seed_failed bus_stopped extraction_settled no_project multiple_projects :
      Error

pub data Outcome (A : Type 0) : Type 0 where
  ok : A → Store → Outcome A
  err : Error → Store → Outcome A

abbrev pub M : Type 0 → Type 0
M A = Store → Outcome A

-- The store that a call leaves behind.
abbrev pub after : {A : Type 0} → Outcome A → Store
after (ok a s) = s
after (err e s) = s

unfoldable pub pure : {A : Type 0} → A → M A
pure a s = ok a s

unfoldable pub fail : {A : Type 0} → Error → M A
fail e s = err e s

unfoldable pub guard : Bool → Error → M (Unit {0})
guard true e s = ok tt s
guard false e s = err e s

unfoldable pub or_fail : {A : Type 0} → Option A → Error → M A
or_fail none e s = err e s
or_fail (some a) e s = ok a s

-- A read of the tables, of what stands outside, and a statement that writes the tables.
unfoldable pub query : {A : Type 0} → (Db → A) → M A
query f s = ok (f s.db) s

unfoldable pub outside : {A : Type 0} → (Outside → A) → M A
outside f s = ok (f s.outside) s

unfoldable pub modify : (Db → Db) → M (Unit {0})
modify f s = ok tt (record s { db = f s.db })

-- `time.Now()`: the next reading of the wall clock.
unfoldable pub wall_now : M ℕ
wall_now s = ok (s.outside.wall s.readings) (record s { readings = suc s.readings })

-- `NewID`.
unfoldable pub new_id : M ℕ
new_id s = ok (s.outside.ids s.draws) (record s { draws = suc s.draws })

-- `rand.Read` for a token or a local part.
unfoldable pub random_bytes : M (Option Text)
random_bytes s = ok (s.outside.random s.draws) (record s { draws = suc s.draws })

abbrev pub millisecond : ℕ
millisecond = 1000000

-- `Store.Now`: the wall clock cut to the millisecond, or one nanosecond past the last answer.
unfoldable pub next_instant : ℕ → ℕ → ℕ
next_instant wall last =
    let now = wall - wall % millisecond in if ltb last now then now else last + 1

unfoldable pub now : M ℕ
now s =
    let t = next_instant (s.outside.wall s.readings) s.last_now in
    ok t (record s { last_now = t; readings = suc s.readings })

-- `WithTx`: an error rolls the tables back; the clock and the draws have moved on.
unfoldable pub roll_back : {A : Type 0} → Db → Outcome A → Outcome A
roll_back db (ok a s) = ok a s
roll_back db (err e s) = err e (record s { db = db })

unfoldable pub with_tx : {A : Type 0} → M A → M A
with_tx m s = roll_back s.db (m s)

unfoldable pub continue : {A B : Type 0} → Outcome A → (A → M B) → Outcome B
continue (ok a s) f = f a s
continue (err e s) f = err e s

-- A call whose error is handled: `handler` on an error, `k` on a result.
unfoldable pub handle : {A B : Type 0} → Outcome A → (Error → M B) → (A → M B) → Outcome B
handle (ok a s) handler k = k a s
handle (err e s) handler k = handler e s

unfoldable pub try : {A B : Type 0} → M A → (Error → M B) → (A → M B) → M B
try m handler k s = handle (m s) handler k

-- Opening the bind opens the primitive actions too.
infixl 5 ◌>>=◌ ◌>>◌
unfoldable pub ◌>>=◌ : {A B : Type 0} → M A → (A → M B) → M B
unfolding continue pure fail guard or_fail query outside modify wall_now new_id random_bytes now
    next_instant roll_back with_tx handle try
◌>>=◌ m f s = continue (m s) f

abbrev pub ◌>>◌ : {B : Type 0} → M (Unit {0}) → M B → M B
m >> k = m >>= λ _. k
