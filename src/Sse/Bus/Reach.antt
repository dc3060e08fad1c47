-- ===== src/Sse/Bus/Reach.antt =====
-- What the goroutine of the bus (internal/sse/bus.go) does, as a relation, and its invariant.
use authstunt.Prelude.{
  ℕ, suc, ◌+◌, ◌≡◌, sym, subst, ◌∙◌, inl, inr, Bool, true, false, Option, none, some, List, [], ◌∷◌,
  ◌++◌, length, All, Bool-cases, if_true, if_false, arith,
}
use authstunt.Sse.Id.{EventId}
use authstunt.Sse.Ring.{Event, ring_size}
use authstunt.Sse.Ring.Refine.{Holds}
use authstunt.Sse.Ring.Replay.{Numbered}
use authstunt.Sse.Bus.{
  Publication, Waiter, Bus, new_bus, stamp, publish, wake, deliver_hint, subscribe_from,
  subscribe_match, drop_subscription, drop_waiter, receive, wait, leave_hint, close_hint,
}
use authstunt.Sse.Bus.Streams.{Follows, Leaves}

-- A bus of a generation that runs, with the log of all that was published.
pub data Reaches (generation : ℕ) : List Event → Bus → Type 0 where
  started : Reaches generation [] (new_bus generation)
  published :
      {log : List Event} {b next : Bus} (p : Publication)
      → Reaches generation log b
      → publish b p ≡ some next
      → Reaches generation (log ++ (stamp b p ∷ [])) next
  subscribed :
      {log : List Event} {b next : Bus} (from : EventId)
      → Reaches generation log b
      → subscribe_from b from ≡ some next
      → Reaches generation log next
  matched :
      {log : List Event} {b : Bus} (match : Event → Bool)
      → Reaches generation log b
      → Reaches generation log (subscribe_match b match)
  left :
      {log : List Event} {b next : Bus} (i : ℕ)
      → Reaches generation log b
      → drop_subscription b i ≡ some next
      → Reaches generation log next
  unmatched :
      {log : List Event} {b next : Bus} (i : ℕ)
      → Reaches generation log b
      → drop_waiter b i ≡ some next
      → Reaches generation log next
  took :
      {log : List Event} {b next : Bus} (i : ℕ)
      → Reaches generation log b
      → receive b i ≡ some next
      → Reaches generation log next
  woke :
      {log : List Event} {b next : Bus} (i : ℕ)
      → Reaches generation log b
      → wait b i ≡ some next
      → Reaches generation log next

-- A waiter in the registry has an open channel.
abbrev pub IsOpen : Waiter → Type 0
IsOpen w = w.registered ≡ true → w.closed ≡ false

abbrev pub OfGeneration : ℕ → Event → Type 0
OfGeneration generation ev = ev.id.generation ≡ generation

pub record Running (generation : ℕ) (log : List Event) (b : Bus) : Type 0 where
  pub of_bus : b.generation ≡ generation
  pub counted : b.seq ≡ length log
  pub numbered : Numbered 0 log
  pub generations : All (OfGeneration generation) log
  pub ring : Holds log b.replay
  pub capacity : b.replay.size ≡ ring_size
  pub streams : All (Follows log) b.subscribers
  pub waiting : All IsOpen b.waiters

pub Numbered-snoc :
    (n : ℕ) (log : List Event) (ev : Event)
    → Numbered n log
    → ev.id.seq ≡ suc (n + length log)
    → Numbered n (log ++ (ev ∷ []))
Numbered-snoc n [] ev h e = (omega (arith, e), tt)
Numbered-snoc n (x ∷ log) ev h e = (h.0, Numbered-snoc (suc n) log ev h.1 (omega (arith, e)))

pub All-snoc {ℓ} :
    {A : Type ℓ} (P : A → Type 0) (xs : List A) (x : A) → All P xs → P x → All P (xs ++ (x ∷ []))
All-snoc P [] x h e = (e, tt)
All-snoc {A = A} P (y ∷ xs) x h e = (h.0, All-snoc P xs x h.1 e)

pub wake-IsOpen : (ev : Event) (w : Waiter) → IsOpen w → Leaves IsOpen (wake ev w)
unfolding wake deliver_hint
wake-IsOpen ev w h = elim (Bool-cases w.registered) [
  | inr off ↦ leaves (if_false _ _ _ off) h
  | inl on ↦ elim (Bool-cases (w.match ev)) [
    | inr e ↦ leaves (if_true _ _ _ on ∙ if_false _ _ _ e) h
    | inl e ↦
        subst (Leaves IsOpen)
          (sym (if_true _ _ _ on ∙ if_true _ _ _ e ∙ if_false w.closed _ _ (h on)))
          (hinted w.buffer)
  ]
]
  where
    leaves : {v : Waiter} → wake ev w ≡ some v → IsOpen v → Leaves IsOpen (wake ev w)
    leaves e f = subst (Leaves IsOpen) (sym e) f

    hinted :
        (o : Option Event)
        → Leaves IsOpen
            (elim o [ none ↦ some (record w { buffer = some ev }) | some first ↦ some w ])
    hinted none = h
    hinted (some first) = h

pub leave_hint-IsOpen : (w : Waiter) → IsOpen w → Leaves IsOpen (leave_hint w)
unfolding leave_hint close_hint
leave_hint-IsOpen w h = elim (Bool-cases w.registered) [
  | inr off ↦ subst (Leaves IsOpen) (sym (if_false w.registered _ _ off)) h
  | inl on ↦
      subst (Leaves IsOpen) (sym (if_true w.registered _ _ on ∙ if_false w.closed _ _ (h on)))
        (λ e. absurd (cc))
]
