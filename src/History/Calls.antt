-- ===== src/History/Calls.antt =====
-- The calls that the server makes on the store (cmd/authstunt/serve.go wires them), and the state
-- that a sequence of them leaves. A parked claim lets other calls run before each of its wakeups.
use authstunt.Prelude.{ℕ, Text, List, [], ◌∷◌}
use authstunt.Store.Models.{RunState, Mode}
use authstunt.Store.Monad.{Db, Outside, Store, M, ◌>>=◌, pure}
use authstunt.Store.Identities.{NewIdentity, create_identity}
use authstunt.Store.Messages.{set_extraction, fail_extraction}
use authstunt.Personas.Config.{Service}
use authstunt.Personas.Acquire.{create_run, end_run, acquire, release, sweep}
use authstunt.Personas.Claim.{ClaimRequest, claim}
use authstunt.Smtp.Ingest.{Ingest, Delivery, deliver}

mutual
  pub data Call : Type 0 where
    enrolls : NewIdentity → Call
    creates_run : Call
    ends_run : ℕ → RunState → Text → Call
    acquires : ℕ → Text → Mode → Call
    releases : ℕ → ℕ → Call
    sweeps : Call
    delivers : Delivery → Call
    extracts : ℕ → Text → Call
    fails_extraction : ℕ → Call
    claims : ClaimRequest → Calls → Call

  pub data Calls : Type 0 where
    none : Calls
    then : Call → Calls → Calls

-- The answer of a call is left out: its caller gets it.
abbrev pub silent : {A : Type 0} → M A → M (Unit {0})
silent m = m >>= λ _. pure tt

module _ (v : Service) (g : Ingest) where
  unfoldable mutual
    pub call : Call → M (Unit {0})
    call (enrolls n) = silent (create_identity n)
    call creates_run = silent (create_run v)
    call (ends_run run state reason) = end_run v run state reason
    call (acquires run role mode) = silent (acquire v run role mode)
    call (releases run lease) = release v run lease
    call sweeps = silent (sweep v)
    call (delivers d) = silent (deliver g d)
    call (extracts message json) = set_extraction message json
    call (fails_extraction message) = fail_extraction message
    call (claims req others) = silent (claim v req (wakes others))

    pub wakes : Calls → List (M (Unit {0}))
    wakes Calls.none = []
    wakes (Calls.then c cs) = call c ∷ wakes cs

-- An empty database.
abbrev pub empty_db : Db
empty_db = record {
  runs = [];
  identities = [];
  leases = [];
  messages = [];
  bindings = [];
  claims = [];
  ledger = [];
  projects = [];
  allowlist = [];
  event_generation = 0;
  recipients = [];
}

abbrev pub opened : Outside → Store
opened o = record { db = empty_db; outside = o; last_now = 0; readings = 0; draws = 0 }
