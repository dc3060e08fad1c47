-- ===== src/Tests/Claims.antt =====
-- Claims, bindings and endings on the fixtures.
use authstunt.Prelude.{
  Ascending, ◌+◌, ◌*◌, ◌≡◌, refl, true, false, List, [], ◌∷◌, any, length, select, ◌↔◌, All,
}
use authstunt.Store.Models.{RunState, Mode, Suspect, Claim, ClaimKind}
use authstunt.Store.Monad.{Store, after, ok}
use authstunt.Store.Leases.{held_with_id, release_lease}
use authstunt.Store.Runs.{end_run}
use authstunt.Store.Bindings.{second, LeaseOwner, suspicion}
use authstunt.Store.Claims.{NewClaim, CandidateFilter, Row, judge, rows_of, sift, record_claim}
use authstunt.Store.Candidates.{Offered, candidates-Offered}
use authstunt.Store.Oldest.{candidates-Ascending}
use authstunt.Store.Tally.{is_quarantined, rejected, sift-Balanced}
use authstunt.Store.Endings.{Over, end_run-Over, release_lease-NoneHeld}
use authstunt.Store.Windows.{IsWindow, record_claim-IsWindow}
use authstunt.Store.Suspicions.{IsTrusted, suspicion-IsTrusted}
use authstunt.Tests.Fixtures.{world, db, store, lease, message, binding, key}

abbrev filter : CandidateFilter
filter = record { lease_id = 3; kind = ClaimKind.email_otp; not_before = 20 * second; limit = 0 }

candidates-Offered_example :
    All
      (Offered world.open_sealed db filter)
      (sift (judge world.open_sealed db.claims filter) (rows_of filter db)).0
candidates-Offered_example = candidates-Offered world.open_sealed db filter

candidates-Ascending_example :
    Ascending
      (λ c. c.received_at)
      (sift (judge world.open_sealed db.claims filter) (rows_of filter db)).0
candidates-Ascending_example = candidates-Ascending world.open_sealed db filter

abbrev rows : List Row
rows =
    record { message = record message { quarantined = true }; binding = binding }
    ∷ record { message = message; binding = record binding { suspect = Suspect.cooldown } }
    ∷ record { message = message; binding = binding }
    ∷ []

sift-Balanced_example :
    ((sift (judge world.open_sealed [] filter) rows).1.bindings ≡ 3)
    × (length (select (λ row. is_quarantined (judge world.open_sealed [] filter row)) rows)
          + length (sift (judge world.open_sealed [] filter) rows).0
          + rejected (sift (judge world.open_sealed [] filter) rows).1
        ≡ 3)
sift-Balanced_example = sift-Balanced (judge world.open_sealed [] filter) rows

end_run-Over_example : Over 1 (after (end_run 1 RunState.complete [] store)).db
unfolding any authstunt.Store.Models.run_is_active end_run authstunt.Store.Monad.with_tx
    authstunt.Store.Monad.roll_back authstunt.Store.Runs.tx_end_run authstunt.Store.Monad.◌>>=◌
    authstunt.Store.Runs.update_run authstunt.Store.Leases.release_run_leases
    authstunt.Store.Leases.update_leases
end_run-Over_example = end_run-Over 1 RunState.complete [] store _ refl refl

release_lease-NoneHeld_example :
    any (held_with_id 3) (after (release_lease 3 store)).db.leases ≡ false
unfolding release_lease authstunt.Store.Monad.with_tx authstunt.Store.Monad.roll_back
    authstunt.Store.Leases.tx_release_lease authstunt.Store.Monad.◌>>=◌
    authstunt.Store.Leases.update_leases any authstunt.Store.Models.lease_held
release_lease-NoneHeld_example = release_lease-NoneHeld 3 store _ refl

abbrev new_claim : NewClaim
new_claim = record {
  lease_id = 3;
  run_id = 1;
  kind = ClaimKind.email_otp;
  message_id = 4;
  idempotency_key = key;
  ttl = 120 * second;
  not_after = 150 * second;
}

abbrev recorded : Claim
recorded = record {
  id = 50;
  lease_id = 3;
  run_id = 1;
  kind = ClaimKind.email_otp;
  message_id = 4;
  idempotency_key = key;
  claimed_at = 100 * second;
  expires_at = 150 * second;
}

record_claim-IsWindow_example : IsWindow new_claim recorded
unfolding record_claim authstunt.Store.Monad.◌>>=◌ authstunt.Store.Identities.is_empty
    authstunt.Store.Claims.claim_expiry authstunt.Store.Claims.insert_claim any
    authstunt.Store.Claims.new_claim
record_claim-IsWindow_example =
    record_claim-IsWindow new_claim store (after (record_claim new_claim store)) recorded refl

abbrev owner : LeaseOwner
owner = record { lease = lease; mode = Mode.pooled }

suspicion-IsTrusted_example :
    (suspicion owner (30 * second) ≡ Suspect.clean) ↔ IsTrusted owner (30 * second)
suspicion-IsTrusted_example = suspicion-IsTrusted owner (30 * second)
