-- ===== src/Store/Intervals.antt =====
-- The timeline of an identity: its rows in the leases table as a sequence of intervals.
use authstunt.Prelude.{
  ℕ, sym, subst, ap, ◌∙◌, ◌≤◌, ◌≡◌, refl, ◌≢◌, ◌⊎◌, inl, inr, Text, Bool, true, false, Option, none,
  some, List, [], ◌∷◌, length, ◌==◌, ◌&&◌, if◌then◌else◌, any, select, update_where, arith, All,
  Bool-cases, and_left, and_right,
}
use authstunt.Store.Models.{Lease, LeaseState, SeedState, lease_held}
use authstunt.Store.Leases.{
  newer, latest, on_identity, start_after, lease_clash, lease_conflicts, end_lease, lease_end,
  settle_row, covers,
}

-- A released lease ended no earlier than it began, and a held one has not ended.
abbrev pub EndsAfter : ℕ → Option ℕ → Type 0
EndsAfter start none = Unit {0}
EndsAfter start (some end) = start ≤ end

abbrev pub EndedBy : ℕ → Option ℕ → Type 0
EndedBy t none = ⊥
EndedBy t (some end) = end ≤ t

pub record IsInterval (l : Lease) : Type 0 where
  pub ends_after : EndsAfter l.acquired_at l.released_at
  pub held_open : lease_held l ≡ true → l.released_at ≡ none
  pub ended_closed : lease_held l ≡ false → l.released_at ≢ none

-- The earlier leases of an identity had ended by the instant `t`.
abbrev pub FreeAt : ℕ → ℕ → List Lease → Type 0
FreeAt identity t = All (λ m. m.identity_id ≡ identity → EndedBy t m.released_at)

-- Newest first, each lease begins when those of the same identity before it had ended.
abbrev pub Ordered : List Lease → Type 0
Ordered [] = Unit {0}
Ordered (l ∷ ls) = IsInterval l × FreeAt l.identity_id l.acquired_at ls × Ordered ls

-- What an update may do to a lease: keep its interval, or close a held one.
pub record Evolves (l m : Lease) : Type 0 where
  pub same_identity : m.identity_id ≡ l.identity_id
  pub same_start : m.acquired_at ≡ l.acquired_at
  pub kept_if_ended : lease_held l ≡ false → m.released_at ≡ l.released_at
  pub is_interval : IsInterval l → IsInterval m

Evolves-refl : (l : Lease) → Evolves l l
Evolves-refl l = record {
  same_identity = refl;
  same_start = refl;
  kept_if_ended = λ _. refl;
  is_interval = λ v. v;
}

pub end_lease-Evolves :
    (state : LeaseState) (at : ℕ) (l : Lease)
    → lease_held l ≡ true
    → state ≢ LeaseState.held
    → Evolves l (end_lease state at l)
unfolding end_lease lease_end lease_held
end_lease-Evolves LeaseState.held at l h ne = absurd (ne refl)
end_lease-Evolves LeaseState.released at l h ne = grind arith
end_lease-Evolves LeaseState.expired at l h ne = grind arith
end_lease-Evolves LeaseState.failed at l h ne = grind arith

pub settle_row-Evolves :
    (state : SeedState) (fingerprint : Text) (at : ℕ) (l : Lease)
    → lease_held l ≡ true
    → Evolves l (settle_row state fingerprint at l)
unfolding settle_row end_lease lease_end lease_held
settle_row-Evolves SeedState.failed fingerprint at l h = grind arith
settle_row-Evolves SeedState.pending fingerprint at l h = grind arith
settle_row-Evolves SeedState.seeded fingerprint at l h = grind arith
settle_row-Evolves SeedState.skipped fingerprint at l h = grind arith

EndedBy-mono : (s t : ℕ) (r : Option ℕ) → s ≤ t → EndedBy s r → EndedBy t r
EndedBy-mono s t none h e = e
EndedBy-mono s t (some end) h e = omega arith

FreeAt-mono : (i s t : ℕ) (ls : List Lease) → s ≤ t → FreeAt i s ls → FreeAt i t ls
FreeAt-mono i s t [] h f = tt
FreeAt-mono i s t (l ∷ ls) h f =
    (λ e. EndedBy-mono s t l.released_at h (f.0 e), FreeAt-mono i s t ls h f.1)

EndedBy-ended : (t : ℕ) (r : Option ℕ) → EndedBy t r → r ≢ none
EndedBy-ended t none e n = e
EndedBy-ended t (some end) e n = cc

-- A lease that had ended by an instant stays as it is under an update.
Evolves-EndedBy :
    (i t : ℕ) {l m : Lease}
    → IsInterval l
    → Evolves l m
    → (l.identity_id ≡ i → EndedBy t l.released_at)
    → m.identity_id ≡ i
    → EndedBy t m.released_at
Evolves-EndedBy i t {l} {m} v ev ended e = elim (Bool-cases (lease_held l)) [
  | inl held ↦
      absurd (EndedBy-ended t l.released_at (ended (sym ev.same_identity ∙ e)) (v.held_open held))
  | inr closed ↦ rw (ev.kept_if_ended closed) (ended (sym ev.same_identity ∙ e))
]

module _ (p : Lease → Bool) (f : Lease → Lease)
    (evolves : (l : Lease) → p l ≡ true → Evolves l (f l)) where
  updated-Evolves : (l : Lease) → Evolves l (if p l then f l else l)
  updated-Evolves l = elim (Bool-cases (p l)) [
    | inl e ↦ rw e (evolves l e)
    | inr e ↦ rw e (Evolves-refl l)
  ]

  update-FreeAt :
      (i t : ℕ) (ls : List Lease) → Ordered ls → FreeAt i t ls → FreeAt i t (update_where p f ls)
  unfolding update_where
  update-FreeAt i t [] o free = tt
  update-FreeAt i t (l ∷ ls) o free =
      (Evolves-EndedBy i t o.0 (updated-Evolves l) free.0, update-FreeAt i t ls o.2 free.1)

  -- An update whose every change closes a held lease keeps the timeline.
  pub update-Ordered : (ls : List Lease) → Ordered ls → Ordered (update_where p f ls)
  unfolding update_where
  update-Ordered [] o = tt
  update-Ordered (l ∷ ls) o =
      let ev = updated-Evolves l in
      (
        ev.is_interval o.0,
        rw (ev.same_identity, ev.same_start) (update-FreeAt l.identity_id l.acquired_at ls o.2 o.1),
        update-Ordered ls o.2,
      )

EndsAfter-EndedBy : (s t : ℕ) (r : Option ℕ) → EndsAfter s r → EndedBy t r → s ≤ t
EndsAfter-EndedBy s t none a e = absurd e
EndsAfter-EndedBy s t (some end) a e = omega arith

abbrev LatestBy : ℕ → Option Lease → Type 0
LatestBy t o = (o ≡ none) ⊎ ((m : Lease) × (o ≡ some m) × (m.acquired_at ≤ t))

newer-eq : (l : Lease) (o : Option Lease) → LatestBy l.acquired_at o → newer l o ≡ l
unfolding newer
newer-eq l o (inl e) = rw e
newer-eq l o (inr (m, e, h)) = rw e (ground arith)

eq_of_test : (a b : ℕ) → (a == b) ≡ true → a ≡ b
eq_of_test a b h = ground arith

ne_of_test : (a b : ℕ) → (a == b) ≡ false → a ≢ b
ne_of_test a b h = ground arith

-- The latest lease of an identity began no later than the instant by which all had ended.
latest-le :
    (i t : ℕ) (ls : List Lease)
    → Ordered ls
    → FreeAt i t ls
    → LatestBy t (latest (on_identity i ls))
unfolding latest select
latest-le i t [] o free = inl refl
latest-le i t (l ∷ ls) o free = elim (Bool-cases (l.identity_id == i)) [
  | inl e ↦
      let same = eq_of_test l.identity_id i e in
      let here =
        newer-eq l (latest (on_identity i ls))
          (latest-le i l.acquired_at ls o.2 (subst (λ j. FreeAt j l.acquired_at ls) same o.1)) in
      inr (
        l,
        rw e (ap some here),
        EndsAfter-EndedBy l.acquired_at t l.released_at o.0.ends_after (free.0 same),
      )
  | inr e ↦ rw e (latest-le i t ls o.2 free.1)
]

start_after-le :
    (at : ℕ) (l : Lease) → l.released_at ≢ none → EndedBy (start_after at (some l)) l.released_at
unfolding start_after
start_after-le at l closed = ground arith

-- No lease of the identity is held.
abbrev pub NoneHeld : ℕ → List Lease → Type 0
NoneHeld i = All (λ m. m.identity_id ≡ i → lease_held m ≡ false)

latest-hit :
    (i : ℕ) (l : Lease) (ls : List Lease)
    → Ordered (l ∷ ls)
    → (l.identity_id == i) ≡ true
    → latest (on_identity i (l ∷ ls)) ≡ some l
unfolding latest select
latest-hit i l ls o e = rw e (
    ap some (
      newer-eq l (latest (on_identity i ls)) (
        latest-le i l.acquired_at ls o.2
          (subst (λ j. FreeAt j l.acquired_at ls) (eq_of_test l.identity_id i e) o.1))))

on_identity-miss :
    (i : ℕ) (l : Lease) (ls : List Lease)
    → (l.identity_id == i) ≡ false
    → on_identity i (l ∷ ls) ≡ on_identity i ls
unfolding select
on_identity-miss i l ls e = rw e

-- A lease that begins where `leaseStart` says begins when all before it had ended.
pub start-FreeAt :
    (i at : ℕ) (ls : List Lease)
    → Ordered ls
    → NoneHeld i ls
    → FreeAt i (start_after at (latest (on_identity i ls))) ls
start-FreeAt i at [] o none_held = tt
start-FreeAt i at (l ∷ ls) o none_held = elim (Bool-cases (l.identity_id == i)) [
  | inl e ↦
      let same = eq_of_test l.identity_id i e in
      let closed = start_after-le at l (o.0.ended_closed (none_held.0 same)) in
      let later =
        EndsAfter-EndedBy l.acquired_at (start_after at (some l)) l.released_at o.0.ends_after
          closed in
      subst (λ m. FreeAt i (start_after at m) (l ∷ ls)) (sym (latest-hit i l ls o e))
        (
          (λ _. closed),
          FreeAt-mono i l.acquired_at (start_after at (some l)) ls later
              (subst (λ j. FreeAt j l.acquired_at ls) same o.1),
        )
  | inr e ↦
      subst (λ m. FreeAt i (start_after at (latest m)) (l ∷ ls)) (sym (on_identity-miss i l ls e))
        ((λ same. absurd (ne_of_test l.identity_id i e same)), start-FreeAt i at ls o.2 none_held.1)
]

-- The partial unique index lets a held lease in only where none is held.
pub not-conflicts-NoneHeld :
    (l : Lease) (ls : List Lease)
    → lease_held l ≡ true
    → lease_conflicts l ls ≡ false
    → NoneHeld l.identity_id ls
unfolding lease_clash any
not-conflicts-NoneHeld l [] h c = tt
not-conflicts-NoneHeld l (m ∷ ls) h c =
    ((λ e. ground arith), not-conflicts-NoneHeld l ls h (ground arith))

FreeAt-not-covers : (t at : ℕ) (m : Lease) → EndedBy t m.released_at → t ≤ at → covers at m ≡ false
unfolding covers
FreeAt-not-covers t at m ended h = ground arith

covers-le : (at : ℕ) (l : Lease) → covers at l ≡ true → l.acquired_at ≤ at
unfolding covers
covers-le at l h = ground arith

-- A test that only leases of one identity pass.
module _ (q : Lease → Bool)
    (agree : (l m : Lease) → q l ≡ true → q m ≡ true → m.identity_id ≡ l.identity_id) where
  none_covers :
      (l : Lease) (at : ℕ) (ls : List Lease)
      → q l ≡ true
      → FreeAt l.identity_id l.acquired_at ls
      → l.acquired_at ≤ at
      → select (λ m. q m && covers at m) ls ≡ []
  unfolding select
  none_covers l at [] ql free h = refl
  none_covers l at (m ∷ ls) ql free h = elim (Bool-cases (q m)) [
    | inl e ↦
        rw (e, FreeAt-not-covers l.acquired_at at m (free.0 (agree l m ql e)) h)
          (none_covers l at ls ql free.1 h)
    | inr e ↦ rw e (none_covers l at ls ql free.1 h)
  ]

  -- At one instant at most one of them covers it.
  pub covers_once :
      (at : ℕ) (ls : List Lease) → Ordered ls → length (select (λ m. q m && covers at m) ls) ≤ 1
  unfolding select
  covers_once at [] o = omega arith
  covers_once at (l ∷ ls) o = elim (Bool-cases (q l && covers at l)) [
    | inl e ↦
        rw (e, none_covers l at ls (and_left _ _ e) o.1 (covers-le at l (and_right _ _ e)))
          (omega arith)
    | inr e ↦ rw e (covers_once at ls o.2)
  ]
