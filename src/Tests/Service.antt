-- ===== src/Tests/Service.antt =====
-- The lease service: its configuration, its grants, its refusals and its claims.
use authstunt.Prelude.{
  ℕ, ◌*◌, ◌≡◌, refl, Text, Bool, true, false, Option, none, some, List, [], ◌∷◌, All, arith,
}
use authstunt.Store.Models.{Mode, SeedState, Reason}
use authstunt.Store.Monad.{Store, Outcome, ok, err, after}
use authstunt.Store.Bindings.{second}
use authstunt.Ledger.Events.{cut_at}
use authstunt.Personas.Config.{Config, Service, Wiring, pos, negsuc, new}
use authstunt.Personas.Policy.{Startable, new-Startable}
use authstunt.Personas.Address.{minted}
use authstunt.Personas.Minting.{minted_local, is_safe, minted-cut}
use authstunt.Personas.Acquire.{Grant, reserve, acquire}
use authstunt.Personas.Granted.{Fulfils, acquire-Fulfils}
use authstunt.Personas.Reservation.{Settles, reserve-Settles}
use authstunt.Personas.Claim.{Claimed, claim}
use authstunt.Personas.Backed.{Backed}
use authstunt.Personas.Answered.{claim-Backed}
use authstunt.Tests.Fixtures.{world, store, idle, role, addr, domain, key, code, service, request}

abbrev config : Config
config = record {
  has_store = true;
  project_id = 9;
  allowlist = domain ∷ [];
  seeder = none;
  run_ttl = pos 0;
  lease_ttl = negsuc 4;
  claim_ttl = pos (1799 * second);
  pooled = some (pos (90 * second));
  pool_cooldown = pos 0;
  bus = Wiring.absent;
}

abbrev started : Service
started = record {
  project_id = 9;
  domain = domain;
  seeder = none;
  bus = Wiring.absent;
  pooled = some (90 * second);
  run_ttl = 1800 * second;
  lease_ttl = 1800 * second;
  cooldown = 90 * second;
  claim_ttl = 1799 * second;
}

new-Startable_example : Startable config started
unfolding new authstunt.Store.Address.canonical_domain authstunt.Store.Address.cut_wildcard
new-Startable_example = new-Startable world.to_ascii config started refl

minted-cut_example :
    (cut_at (minted role (7 ∷ 255 ∷ []) domain) ≡ some (minted_local role (7 ∷ 255 ∷ []), domain))
    × All (λ c. is_safe c ≡ true) (minted_local role (7 ∷ 255 ∷ []))
unfolding authstunt.Prelude.any
minted-cut_example = minted-cut role (7 ∷ 255 ∷ []) domain refl (omega arith, (omega arith, tt))

abbrev granted : Grant
granted = record {
  lease_id = 50;
  identity_id = 2;
  addr = addr;
  role = role;
  mode = Mode.pooled;
  seed_state = SeedState.skipped;
  expires_at = 1901 * second;
}

acquire-Fulfils_example :
    Fulfils role Mode.pooled granted (after (acquire service 1 role Mode.pooled idle)).db
unfolding acquire authstunt.Store.Monad.◌>>=◌ authstunt.Personas.Acquire.reserve
    authstunt.Personas.Acquire.reserve_pooled authstunt.Store.Identities.list_pooled_identities
    authstunt.Personas.Acquire.try_each authstunt.Prelude.sort_by authstunt.Prelude.select
    authstunt.Store.Identities.is_candidate authstunt.Store.Models.is_pooled
    authstunt.Prelude.text_eq authstunt.Store.Leases.cooling
    authstunt.Personas.Acquire.try_candidate authstunt.Personas.Acquire.lease_for
    authstunt.Store.Leases.acquire_lease authstunt.Prelude.find authstunt.Store.Models.run_is_active
    authstunt.Store.Leases.lease_start authstunt.Store.Leases.identity_is_cooling_down
    authstunt.Store.Leases.insert_lease authstunt.Prelude.any
    authstunt.Personas.Acquire.audit_acquire authstunt.Store.Trail.tx_write
    authstunt.Store.Trail.append_ledger authstunt.Store.Trail.insert_entry
    authstunt.Personas.Acquire.seed_with authstunt.Personas.Acquire.settle
    authstunt.Personas.Acquire.record_seed authstunt.Personas.Acquire.when
    authstunt.Personas.Acquire.is_failure authstunt.Personas.Acquire.start_cooldown
    authstunt.Personas.Acquire.meta authstunt.Personas.Acquire.grant
    authstunt.Personas.Acquire.no_failure authstunt.Personas.Acquire.reason_of
    authstunt.Personas.Acquire.unless_lost authstunt.Personas.Acquire.seed_request
    authstunt.Store.Leases.settle_seed authstunt.Store.Leases.is_outcome
    authstunt.Store.Leases.update_leases authstunt.Store.Leases.new_lease
    authstunt.Store.Models.lease_held authstunt.Store.Leases.settle_row
    authstunt.Store.Leases.lease_clash authstunt.Store.Leases.start_after
    authstunt.Store.Leases.latest authstunt.Store.Leases.newer
    authstunt.Store.Identities.set_cooldown authstunt.Store.Monad.with_tx
    authstunt.Store.Monad.roll_back authstunt.Store.Monad.try authstunt.Store.Monad.handle
    authstunt.Store.Identities.created_before authstunt.Prelude.insert_by
    authstunt.Prelude.update_where
acquire-Fulfils_example =
    acquire-Fulfils service 1 role Mode.pooled idle
      (after (acquire service 1 role Mode.pooled idle)) granted refl

-- There is a policy: the identity that is idle is leased.
reserve-Settles_example :
    Settles service 1 role Mode.pooled false idle.db (reserve service Mode.pooled 1 role idle)
reserve-Settles_example = reserve-Settles service 1 role Mode.pooled idle

abbrev answer : Claimed
answer = record { reason = some Reason.claim_ok; claim_id = 50; message_id = 4; value = code }

claim-Backed_example : Backed 3 key answer (after (claim service request [] store)).db
unfolding claim authstunt.Store.Monad.◌>>=◌ authstunt.Personas.Claim.kind_served
    authstunt.Store.Identities.is_empty authstunt.Store.Leases.lease_by_id authstunt.Prelude.find
    authstunt.Store.Identities.identity_by_id authstunt.Store.Runs.run_by_id
    authstunt.Personas.Claim.gated authstunt.Personas.Claim.gate authstunt.Store.Models.run_active
    authstunt.Store.Models.lease_held authstunt.Store.Models.lease_claimable
    authstunt.Personas.Claim.replay_or_search authstunt.Personas.Claim.replay
    authstunt.Store.Claims.claim_by_key authstunt.Personas.Claim.none_if_missing
    authstunt.Personas.Claim.or_next authstunt.Personas.Claim.search_mail
    authstunt.Personas.Claim.subscribe authstunt.Personas.Claim.wait_loop
    authstunt.Personas.Claim.attempt authstunt.Store.Claims.claim_candidates
    authstunt.Personas.Claim.filter_for authstunt.Personas.Claim.take
    authstunt.Store.Claims.candidates_of authstunt.Store.Claims.rows_of
    authstunt.Store.Claims.limit_rows authstunt.Prelude.sort_by authstunt.Store.Claims.join_rows
    authstunt.Store.Claims.join_message authstunt.Store.Claims.keep authstunt.Store.Claims.judge
    authstunt.Store.Models.binding_clean cut_at authstunt.Ledger.Events.detail
    authstunt.Ledger.Events.redact_parts authstunt.Ledger.Events.redacted
    authstunt.Personas.Acquire.meta authstunt.Personas.Claim.claim_for
    authstunt.Personas.Claim.end_of_grant authstunt.Personas.Claim.explain
    authstunt.Personas.Claim.explanation authstunt.Personas.Claim.field_for
    authstunt.Personas.Claim.lower_bound authstunt.Personas.Claim.message_value
    authstunt.Personas.Claim.opened_value authstunt.Personas.Claim.or_else
    authstunt.Personas.Claim.park authstunt.Personas.Claim.refused_record
    authstunt.Personas.Claim.replay_row authstunt.Personas.Claim.replayed
    authstunt.Personas.Claim.settle_claim authstunt.Personas.Claim.settled_reason
    authstunt.Personas.Claim.take_one authstunt.Personas.Claim.value_for
    authstunt.Personas.Claim.value_of authstunt.Prelude.any authstunt.Prelude.insert_by
    authstunt.Prelude.text_eq authstunt.Store.Claims.by_state authstunt.Store.Claims.claim_clash
    authstunt.Store.Claims.claim_expiry authstunt.Store.Claims.insert_claim
    authstunt.Store.Claims.is_claimed authstunt.Store.Claims.new_claim
    authstunt.Store.Claims.received_before authstunt.Store.Claims.record_claim
    authstunt.Store.Claims.rejections_of authstunt.Store.Claims.same_key
    authstunt.Store.Claims.same_message authstunt.Store.Claims.tally authstunt.Store.Models.is_clean
    authstunt.Store.Models.lease_is_held authstunt.Store.Models.run_is_active
    authstunt.Store.Models.same_kind authstunt.Store.Models.seed_is_settled
    authstunt.Store.Monad.continue authstunt.Store.Monad.fail authstunt.Store.Monad.guard
    authstunt.Store.Monad.handle authstunt.Store.Monad.new_id authstunt.Store.Monad.next_instant
    authstunt.Store.Monad.now authstunt.Store.Monad.or_fail authstunt.Store.Monad.outside
    authstunt.Store.Monad.pure authstunt.Store.Monad.query authstunt.Store.Monad.roll_back
    authstunt.Store.Monad.try authstunt.Store.Monad.wall_now authstunt.Store.Monad.with_tx
    authstunt.Store.Trail.append_ledger authstunt.Store.Trail.insert_entry
    authstunt.Store.Trail.tx_write authstunt.Store.Trail.write
claim-Backed_example =
    claim-Backed service request [] store (after (claim service request [] store)) answer refl
