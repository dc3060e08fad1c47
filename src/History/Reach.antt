-- ===== src/History/Reach.antt =====
-- The stores that a history of calls reaches, failed calls included.
use authstunt.Store.Monad.{Outside, Store, M, after}
use authstunt.Store.Sound.{Sound}
use authstunt.Store.Keeps.{Keeps, Keeps-bind, Keeps-pure}
use authstunt.Store.Writes.{create_identity-Sound}
use authstunt.Personas.Config.{Service}
use authstunt.Personas.Invariant.{
  SeederKeeps, acquire-Keeps, release-Keeps, sweep-Keeps, create_run-Keeps, end_run-Keeps,
}
use authstunt.Personas.ClaimInvariant.{WakesKeep, claim-Keeps}
use authstunt.Smtp.Ingest.{Ingest}
use authstunt.Smtp.Invariant.{deliver-Keeps, set_extraction-Keeps, fail_extraction-Keeps}
use authstunt.History.Calls.{
  Call, Calls, enrolls, creates_run, ends_run, acquires, releases, sweeps, delivers, extracts,
  fails_extraction, claims, silent, call, wakes, opened,
}

-- The step relation: a call runs to its end, and leaves its store whether it returns or fails.
pub data Reaches (v : Service) (g : Ingest) (o : Outside) : Store → Type 0 where
  starts : Reaches v g o (opened o)
  steps : {s : Store} → Reaches v g o s → (c : Call) → Reaches v g o (after (call v g c s))

silent-Keeps : {A : Type 0} (m : M A) → Keeps Sound m → Keeps Sound (silent m)
silent-Keeps m h = Keeps-bind m _ h (λ _. Keeps-pure tt)

module _ (v : Service) (g : Ingest) (h : SeederKeeps v.seeder) where
  mutual
    unfolding call wakes

    call-Keeps : (c : Call) → Keeps Sound (call v g c)
    call-Keeps (enrolls n) = silent-Keeps _ (create_identity-Sound n)
    call-Keeps creates_run = silent-Keeps _ (create_run-Keeps v)
    call-Keeps (ends_run run state reason) = end_run-Keeps v run state reason
    call-Keeps (acquires run role mode) = silent-Keeps _ (acquire-Keeps v run role mode h)
    call-Keeps (releases run lease) = release-Keeps v run lease
    call-Keeps sweeps = silent-Keeps _ (sweep-Keeps v)
    call-Keeps (delivers d) = silent-Keeps _ (deliver-Keeps g d)
    call-Keeps (extracts message json) = set_extraction-Keeps message json
    call-Keeps (fails_extraction message) = fail_extraction-Keeps message
    call-Keeps (claims req others) =
        silent-Keeps _ (claim-Keeps v req (wakes v g others) (wakes-Keep others))

    wakes-Keep : (cs : Calls) → WakesKeep (wakes v g cs)
    wakes-Keep Calls.none = tt
    wakes-Keep (Calls.then c cs) = (call-Keeps c, wakes-Keep cs)

  -- In every store that is reached from an empty database by any calls, in any order, failed ones
  -- and parked claims included, each lease covers a well-formed interval and begins when the earlier
  -- leases of its identity had ended, and no two runs, identities, bindings or claims share a key of
  -- a unique index. The seeder may use the store too, as long as it keeps this.
  pub reached-Sound : {o : Outside} {s : Store} → Reaches v g o s → Sound s.db
  reached-Sound starts = record {
    timeline = tt;
    runs_differ = tt;
    identities_differ = tt;
    bindings_differ = tt;
    claims_differ = tt;
  }
  reached-Sound (steps r c) = (call-Keeps c).at _ (reached-Sound r)
