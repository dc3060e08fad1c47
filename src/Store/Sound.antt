-- ===== src/Store/Sound.antt =====
-- The invariant of the tables: the timelines of the identities, and the unique indexes.
use authstunt.Prelude.{
  ◌≡◌, refl, Bool, true, false, List, [], ◌∷◌, if◌then◌else◌, any, update_where, Bool-cases, inl,
  inr, ◌∙◌,
}
use mathlib.Core.Path.{fun_ext}
use authstunt.Ledger.Events.{Entry}
use authstunt.Store.Models.{MessageRecipient, Run, Identity, Lease, Message, Binding, Claim}
use authstunt.Store.Monad.{Db}
use authstunt.Store.Identities.{identity_conflicts}
use authstunt.Store.Runs.{run_conflicts}
use authstunt.Store.Bindings.{binding_conflicts}
use authstunt.Store.Claims.{claim_conflicts}
use authstunt.Store.Intervals.{Ordered}

-- No row conflicts with one inserted before it.
abbrev pub Distinct : {A : Type 0} → (A → List A → Bool) → List A → Type 0
Distinct conflicts [] = Unit {0}
Distinct conflicts (x ∷ xs) = (conflicts x xs ≡ false) × Distinct conflicts xs

pub record Sound (db : Db) : Type 0 where
  pub timeline : Ordered db.leases
  pub runs_differ : Distinct run_conflicts db.runs
  pub identities_differ : Distinct identity_conflicts db.identities
  pub bindings_differ : Distinct binding_conflicts db.bindings
  pub claims_differ : Distinct claim_conflicts db.claims

-- One table is written.
module _ {db : Db} (h : Sound db) where
  open h use {timeline, runs_differ, identities_differ, bindings_differ, claims_differ}

  pub Sound-leases : (ls : List Lease) → Ordered ls → Sound (record db { leases = ls })
  Sound-leases ls t = record {
    timeline = t;
    runs_differ = runs_differ;
    identities_differ = identities_differ;
    bindings_differ = bindings_differ;
    claims_differ = claims_differ;
  }

  pub Sound-runs : (rs : List Run) → Distinct run_conflicts rs → Sound (record db { runs = rs })
  Sound-runs rs d = record {
    timeline = timeline;
    runs_differ = d;
    identities_differ = identities_differ;
    bindings_differ = bindings_differ;
    claims_differ = claims_differ;
  }

  pub Sound-identities :
      (is : List Identity) → Distinct identity_conflicts is → Sound (record db { identities = is })
  Sound-identities is d = record {
    timeline = timeline;
    runs_differ = runs_differ;
    identities_differ = d;
    bindings_differ = bindings_differ;
    claims_differ = claims_differ;
  }

  pub Sound-bindings :
      (bs : List Binding) → Distinct binding_conflicts bs → Sound (record db { bindings = bs })
  Sound-bindings bs d = record {
    timeline = timeline;
    runs_differ = runs_differ;
    identities_differ = identities_differ;
    bindings_differ = d;
    claims_differ = claims_differ;
  }

  pub Sound-claims :
      (cs : List Claim) → Distinct claim_conflicts cs → Sound (record db { claims = cs })
  Sound-claims cs d = record {
    timeline = timeline;
    runs_differ = runs_differ;
    identities_differ = identities_differ;
    bindings_differ = bindings_differ;
    claims_differ = d;
  }

  pub Sound-messages : (ms : List Message) → Sound (record db { messages = ms })
  Sound-messages ms = record {
    timeline = timeline;
    runs_differ = runs_differ;
    identities_differ = identities_differ;
    bindings_differ = bindings_differ;
    claims_differ = claims_differ;
  }

  pub Sound-recipients : (rs : List MessageRecipient) → Sound (record db { recipients = rs })
  Sound-recipients rs = record {
    timeline = timeline;
    runs_differ = runs_differ;
    identities_differ = identities_differ;
    bindings_differ = bindings_differ;
    claims_differ = claims_differ;
  }

  pub Sound-ledger : (es : List Entry) → Sound (record db { ledger = es })
  Sound-ledger es = record {
    timeline = timeline;
    runs_differ = runs_differ;
    identities_differ = identities_differ;
    bindings_differ = bindings_differ;
    claims_differ = claims_differ;
  }

module _ {A : Type 0} (p : A → Bool) (f : A → A) where
  -- An update of columns that a test does not read.
  any-update_where :
      (q : A → Bool) (xs : List A)
      → ((x : A) → q (f x) ≡ q x)
      → any q (update_where p f xs) ≡ any q xs
  unfolding any update_where
  any-update_where q [] same = refl
  any-update_where q (x ∷ xs) same = elim (Bool-cases (p x)) [
    | inl e ↦ rw (e, same x, any-update_where q xs same)
    | inr e ↦ rw (e, any-update_where q xs same)
  ]

module _ {A : Type 0} (clash : A → A → Bool) (p : A → Bool) (f : A → A) where
  -- The updates leave the columns of the unique indexes alone.
  pub update-Distinct :
      (xs : List A)
      → ((x y : A) → clash (f x) y ≡ clash x y)
      → ((x y : A) → clash x (f y) ≡ clash x y)
      → Distinct (λ x. any (clash x)) xs
      → Distinct (λ x. any (clash x)) (update_where p f xs)
  unfolding update_where
  update-Distinct [] left right d = tt
  update-Distinct (x ∷ xs) left right d =
      (any-update_where p f _ xs (right _) ∙ same (p x), update-Distinct xs left right d.1)
    where
      same : (b : Bool) → any (clash (if b then f x else x)) xs ≡ false
      same true = rw (fun_ext (left x)) d.0
      same false = d.0
