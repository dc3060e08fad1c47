-- ===== src/Tests/Histories.antt =====
-- A history: a run, a pooled identity, its lease, a mail, and a claim during which the run ends.
use authstunt.Prelude.{some, ◌*◌, ◌==◌, ◌&&◌, ◌≤◌, [], length, select}
use authstunt.Store.Models.{RunState, SeedState, Mode, ClaimKind, lease_held}
use authstunt.Store.Monad.{Store, after, pure}
use authstunt.Store.Identities.{NewIdentity}
use authstunt.Store.Bindings.{second}
use authstunt.Store.Leases.{owner_rows}
use authstunt.Smtp.Ingest.{Delivery}
use authstunt.Store.Claims.{same_message, same_key}
use authstunt.Store.Sound.{Sound}
use authstunt.Store.Keeps.{Keeps-pure}
use authstunt.Personas.Config.{Service, answered}
use authstunt.Personas.Invariant.{SeederKeeps}
use authstunt.History.Calls.{
  Call, Calls, enrolls, creates_run, ends_run, acquires, delivers, extracts, claims, call, opened,
}
use authstunt.History.Reach.{Reaches, starts, steps, reached-Sound}
use authstunt.History.Unique.{
  owner_rows-once, message_claimed-once, key_claimed-once, identity_held-once,
}
use authstunt.Tests.Fixtures.{world, service, ingest, request, delivery, addr, role, key, code}

-- An adapter that seeds at once, and does not use the store.
abbrev seeding : Service
seeding = record service { seeder = some (λ req. pure (answered SeedState.seeded [])) }

seeding-keeps : SeederKeeps seeding.seeder
seeding-keeps = λ req. Keeps-pure _

abbrev enrolled : NewIdentity
enrolled = record { project_id = 9; persona_id = 8; addr = addr; role = role; mode = Mode.pooled }

-- The ids are those that the history draws.
abbrev claimed : Call
claimed =
    claims (record request { lease_id = 53 })
      (Calls.then (ends_run 51 RunState.complete []) Calls.none)

abbrev arriving : Delivery
arriving = record delivery { received_at = 200 * second; origin = 200 * second }

abbrev step : Store → Call → Store
step s c = after (call seeding ingest c s)

abbrev leased : Store
leased =
    step (step (step (opened world) creates_run) (enrolls enrolled)) (acquires 51 role Mode.pooled)

abbrev extracted : Store
extracted = step (step leased (delivers arriving)) (extracts 54 code)

abbrev last : Store
last = step extracted claimed

reached-leased : Reaches seeding ingest world leased
reached-leased =
    steps (steps (steps starts creates_run) (enrolls enrolled)) (acquires 51 role Mode.pooled)

reached : Reaches seeding ingest world last
reached = steps (steps (steps reached-leased (delivers arriving)) (extracts 54 code)) claimed

reached-Sound_example : Sound last.db
reached-Sound_example = reached-Sound seeding ingest seeding-keeps reached

owner_rows-once_example : length (owner_rows addr (200 * second) last.db) ≤ 1
owner_rows-once_example =
    owner_rows-once seeding ingest world last seeding-keeps reached addr (200 * second)

message_claimed-once_example :
    length (select (same_message 54 ClaimKind.email_otp) last.db.claims) ≤ 1
message_claimed-once_example =
    message_claimed-once seeding ingest world last seeding-keeps reached 54 ClaimKind.email_otp

key_claimed-once_example : length (select (same_key 53 key) last.db.claims) ≤ 1
key_claimed-once_example = key_claimed-once seeding ingest world last seeding-keeps reached 53 key

identity_held-once_example :
    length (select (λ l. l.identity_id == 52 && lease_held l) last.db.leases) ≤ 1
identity_held-once_example = identity_held-once seeding ingest world last seeding-keeps reached 52
