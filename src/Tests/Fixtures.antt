-- ===== src/Tests/Fixtures.antt =====
-- A server with one run, one pooled and one minted identity, and a mail with a code.
use authstunt.Prelude.{◌+◌, ◌*◌, Text, false, none, some, [], ◌∷◌}
use authstunt.Store.Models.{
  Run, RunState, Identity, Lease, LeaseState, SeedState, Mode, Message, ExtractionState, Binding,
  ClaimKind, Suspect,
}
use authstunt.Store.Monad.{Db, Outside, Store, Outcome, ok, err}
use authstunt.Store.Bindings.{second}
use authstunt.Personas.Config.{Service, Wiring}
use authstunt.Personas.Claim.{ClaimRequest}
use authstunt.Smtp.Ingest.{Ingest, Delivery}

abbrev pub role : Text
role = b'Q' ∷ b'A' ∷ []

abbrev pub domain : Text
domain = b'x' ∷ b'.' ∷ b'i' ∷ b'o' ∷ []

abbrev pub addr : Text
addr = b'q' ∷ b'@' ∷ domain

abbrev pub key : Text
key = b'k' ∷ []

abbrev pub code : Text
code = b'4' ∷ b'2' ∷ []

-- The clock ticks a second at each reading, and the sealer seals nothing.
abbrev pub world : Outside
world = record {
  wall = λ n. (n + 100) * second;
  ids = λ n. n + 50;
  random = λ n. some (n ∷ 255 ∷ []);
  base64url = λ t. t;
  sha256 = λ t. t;
  to_ascii = λ t. some t;
  seal = λ t. some t;
  open_sealed = λ t. some t;
  decode_extraction = λ t. some (t, []);
}

abbrev pub run : Run
run = record {
  id = 1;
  project_id = 9;
  token_hash = key;
  state = RunState.active;
  fail_reason = [];
  checkpoint_at = 10 * second;
  started_at = 10 * second;
  expires_at = 9000 * second;
  ended_at = none;
}

abbrev pub identity : Identity
identity = record {
  id = 2;
  project_id = 9;
  persona_id = 8;
  addr = addr;
  role = role;
  mode = Mode.pooled;
  cooldown_until = none;
  created_at = second;
}

abbrev pub lease : Lease
lease = record {
  id = 3;
  run_id = 1;
  identity_id = 2;
  role = role;
  state = LeaseState.held;
  seed_state = SeedState.skipped;
  seed_fingerprint = [];
  acquired_at = 20 * second;
  expires_at = 2000 * second;
  released_at = none;
  in_cooldown = false;
}

abbrev pub message : Message
message = record {
  id = 4;
  project_id = 9;
  text_body = code;
  extracted = code;
  extraction_state = ExtractionState.success;
  quarantined = false;
  received_at = 30 * second;
}

abbrev pub binding : Binding
binding = record {
  message_id = 4;
  lease_id = 3;
  run_id = 1;
  identity_id = 2;
  addr = addr;
  bound_at = 30 * second;
  suspect = Suspect.clean;
}

abbrev pub db : Db
db = record {
  runs = run ∷ [];
  identities = identity ∷ [];
  leases = lease ∷ [];
  messages = message ∷ [];
  bindings = binding ∷ [];
  claims = [];
  ledger = [];
  projects = [];
  allowlist = [];
  event_generation = 0;
  recipients = [];
}

abbrev pub store : Store
store = record { db = db; outside = world; last_now = 0; readings = 0; draws = 0 }

-- No lease yet.
abbrev pub idle : Store
idle = record store { db = record db { leases = []; bindings = []; messages = [] } }

abbrev pub service : Service
service = record {
  project_id = 9;
  domain = domain;
  seeder = none;
  bus = Wiring.absent;
  pooled = some (5 * second);
  run_ttl = 1800 * second;
  lease_ttl = 1800 * second;
  cooldown = 60 * second;
  claim_ttl = 120 * second;
}

abbrev pub ingest : Ingest
ingest = record { project_id = 9; allowlist = domain ∷ [] }

abbrev pub request : ClaimRequest
request = record { lease_id = 3; kind = ClaimKind.email_otp; idempotency_key = key; timeout = 0 }

abbrev pub delivery : Delivery
delivery = record {
  from = addr;
  recipients = addr ∷ [];
  to = addr ∷ [];
  cc = [];
  received_at = 40 * second;
  text = code;
  origin = 40 * second;
}

abbrev pub or_value : {A : Type 0} → A → Outcome A → A
or_value d (ok a s) = a
or_value d (err e s) = d
