-- ===== src/Personas/Policy.antt =====
-- The services that `New` lets start.
use authstunt.Prelude.{
  ℕ, ◌≡◌, ◌≢◌, ◌≤◌, ◌<◌, refl, inl, inr, subst, Text, Bool, true, false, Option, none, some, leb,
  ltb, ◌==◌, if◌then◌else◌, Bool-cases, arith,
}
use authstunt.Store.Bindings.{second}
use authstunt.Personas.Config.{
  ℤ, pos, negsuc, Config, Service, ConfigError, Checked, valid, refused, refuse, or_default,
  policy_bound, cooldown_for, resolve_cooldown, first_domain, new, default_run_ttl,
  default_lease_ttl, default_claim_ttl, no_store, no_project, claim_outlives_lease, ◌>>=◌, ◌>>◌,
}

-- What a check that passed has established.
abbrev OnValid : {A : Type 0} → (A → Type 0) → Checked A → Type 0
OnValid Q (valid a) = Q a
OnValid Q (refused e) = Unit {0}

OnValid-bind :
    {A B : Type 0} (R : A → Type 0) (Q : B → Type 0) (m : Checked A) (f : A → Checked B)
    → OnValid R m
    → ((a : A) → R a → OnValid Q (f a))
    → OnValid Q (m >>= f)
OnValid-bind R Q (valid a) f h k = k a h
OnValid-bind R Q (refused e) f h k = tt

-- Without a policy the cooldown is positive; with one it is no shorter than the declared delivery
-- bound, which is a second or more.
abbrev pub CoolsFor : Option ℕ → ℕ → Type 0
CoolsFor none cooldown = 0 < cooldown
CoolsFor (some bound) cooldown = (second ≤ bound) × (bound ≤ cooldown)

abbrev BoundedBy : Option ℕ → Type 0
BoundedBy none = Unit {0}
BoundedBy (some bound) = second ≤ bound

policy_bound-BoundedBy : (p : Option ℤ) → OnValid BoundedBy (policy_bound p)
unfolding policy_bound
policy_bound-BoundedBy none = tt
policy_bound-BoundedBy (some (negsuc n)) = tt
policy_bound-BoundedBy (some (pos n)) = elim (Bool-cases (ltb n second)) [
  | inl e ↦ rw e tt
  | inr e ↦ rw e (ground arith)
]

cooldown_for-CoolsFor :
    (bound : Option ℕ) (c : ℕ) → BoundedBy bound → OnValid (CoolsFor bound) (cooldown_for bound c)
unfolding cooldown_for
cooldown_for-CoolsFor none c h = ground arith
cooldown_for-CoolsFor (some floor) c h = elim (Bool-cases (c == 0)) [
  | inl e ↦ rw e (h, omega arith)
  | inr e ↦ elim (Bool-cases (ltb c floor)) [
    | inl short ↦ rw (e, short) tt
    | inr long ↦ rw (e, long) (h, ground arith)
  ]
]

resolve_cooldown-CoolsFor :
    (p : Option ℤ) (c : ℤ)
    → OnValid (λ settled. CoolsFor settled.0 settled.1) (resolve_cooldown p c)
unfolding resolve_cooldown
resolve_cooldown-CoolsFor p (negsuc n) = tt
resolve_cooldown-CoolsFor p (pos c) =
    OnValid-bind BoundedBy _ (policy_bound p) _ (policy_bound-BoundedBy p) λ bound h.
      OnValid-bind (CoolsFor bound) _ (cooldown_for bound c) _ (cooldown_for-CoolsFor bound c h)
        λ cooldown k. k

or_default-pos : (z : ℤ) (d : ℕ) → 0 < d → 0 < or_default z d
unfolding or_default
or_default-pos (pos n) d h = ground arith
or_default-pos (negsuc n) d h = h

pub record Startable (cfg : Config) (v : Service) : Type 0 where
  pub project_given : v.project_id ≢ 0
  pub claims_end_first : v.claim_ttl < v.lease_ttl
  pub claims_last : 0 < v.claim_ttl
  pub runs_last : 0 < v.run_ttl
  pub cools : CoolsFor v.pooled v.cooldown

module _ (cfg : Config) where
  abbrev lease_ttl : ℕ
  lease_ttl = or_default cfg.lease_ttl default_lease_ttl

  abbrev claim_ttl : ℕ
  claim_ttl = or_default cfg.claim_ttl default_claim_ttl

  abbrev started : Text → Option ℕ × ℕ → Service
  started domain settled = record {
    project_id = cfg.project_id;
    domain = domain;
    seeder = cfg.seeder;
    bus = cfg.bus;
    pooled = settled.0;
    run_ttl = or_default cfg.run_ttl default_run_ttl;
    lease_ttl = lease_ttl;
    cooldown = settled.1;
    claim_ttl = claim_ttl;
  }

  started-Startable :
      (domain : Text) (settled : Option ℕ × ℕ)
      → (cfg.project_id == 0) ≡ false
      → leb lease_ttl claim_ttl ≡ false
      → CoolsFor settled.0 settled.1
      → Startable cfg (started domain settled)
  started-Startable domain settled project order cools = record {
    project_given = ground arith;
    claims_end_first = ground arith;
    claims_last = or_default-pos cfg.claim_ttl default_claim_ttl (omega arith);
    runs_last = or_default-pos cfg.run_ttl default_run_ttl (omega arith);
    cools = cools;
  }

  settle-OnValid :
      (domain : Text)
      → (cfg.project_id == 0) ≡ false
      → leb lease_ttl claim_ttl ≡ false
      → OnValid (Startable cfg) (
          resolve_cooldown cfg.pooled cfg.pool_cooldown >>= λ settled.
          valid (started domain settled))
  settle-OnValid domain project order =
      OnValid-bind (λ settled. CoolsFor settled.0 settled.1) (Startable cfg)
        (resolve_cooldown cfg.pooled cfg.pool_cooldown) (λ settled. valid (started domain settled))
        (resolve_cooldown-CoolsFor cfg.pooled cfg.pool_cooldown)
        (λ settled cools. started-Startable domain settled project order cools)

  new-OnValid : (to_ascii : Text → Option Text) → OnValid (Startable cfg) (new to_ascii cfg)
  unfolding new
  new-OnValid to_ascii = unless-OnValid (if cfg.has_store then false else true) no_store _ λ _.
      unless-OnValid (cfg.project_id == 0) no_project _ λ project.
        any-OnValid (first_domain to_ascii cfg.allowlist) _ λ domain.
          unless-OnValid (leb lease_ttl claim_ttl) claim_outlives_lease _
            λ order. settle-OnValid domain project order
    where
      unless-OnValid :
          (b : Bool) (e : ConfigError) (next : Checked Service)
          → (b ≡ false → OnValid (Startable cfg) next)
          → OnValid (Startable cfg) (refuse b e >> next)
      unless-OnValid true e next h = tt
      unless-OnValid false e next h = h refl

      any-OnValid :
          (m : Checked Text) (next : Text → Checked Service)
          → ((a : Text) → OnValid (Startable cfg) (next a))
          → OnValid (Startable cfg) (m >>= next)
      any-OnValid (valid a) next h = h a
      any-OnValid (refused e) next h = tt

-- A service that `New` returns has a project, run and claim lifetimes that are positive, a claim
-- lifetime shorter than that of a lease, and a cooldown that is positive without a pooled policy and
-- no shorter than the declared delivery bound, itself a second or more, with one.
pub new-Startable :
    (to_ascii : Text → Option Text) (cfg : Config) (v : Service)
    → new to_ascii cfg ≡ valid v
    → Startable cfg v
new-Startable to_ascii cfg v e = subst (OnValid (Startable cfg)) e (new-OnValid cfg to_ascii)
