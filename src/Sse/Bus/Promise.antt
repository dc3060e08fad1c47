-- ===== src/Sse/Bus/Promise.antt =====
-- What the bus (internal/sse/bus.go) promises its subscribers, whatever it does in whatever order.
use authstunt.Prelude.{
  ℕ, ◌≡◌, refl, sym, ap, subst, ◌∙◌, inl, inr, Bool, true, Option, none, some, List, [], ◌∷◌, ◌++◌,
  drop, All, Bool-cases, if_true, if_false,
}
use authstunt.Sse.Id.{EventId}
use authstunt.Sse.Ring.{Event}
use authstunt.Sse.Bus.{
  with_subscribers, with_waiters, Subscription, Waiter, Bus, stamp, open_stream, subscribe_from,
  new_waiter, subscribe_match, drop_subscription, drop_waiter, receive, wait, leave_stream,
  leave_hint, close_stream, close_hint, end_stream, end_hint, each, stop, receive_event,
  receive_hint, only,
}
use authstunt.Sse.Bus.Streams.{
  Follows, Leaves, each-Leaves, only-Leaves, leave_stream-Follows, receive_event-Follows,
}
use authstunt.Sse.Bus.Reach.{
  Reaches, started, published, subscribed, matched, left, unmatched, took, woke, IsOpen, Running,
  All-snoc, leave_hint-IsOpen,
}
use authstunt.Sse.Bus.Steps.{
  new_bus-Running, publish-Running, streams-Running, waiters-Running, Opened, Told,
  open_stream-Opened,
}

module _ (generation : ℕ) (log : List Event) (b : Bus) (h : Running generation log b) where
  subscribe_from-Running :
      (from : EventId) → Leaves (Running generation log) (subscribe_from b from)
  unfolding subscribe_from with_subscribers
  subscribe_from-Running from =
      join (open_stream b from) (open_stream-Opened generation log b from h)
    where
      join :
          (o : Option Subscription)
          → Leaves (Opened generation log from) o
          → Leaves (Running generation log) (elim o [
            | none ↦ none
            | some s ↦ some (record b { subscribers = b.subscribers ++ (s ∷ []) })
          ])
      join none q = elim q [ ]
      join (some s) q =
          streams-Running generation log b (some (b.subscribers ++ (s ∷ []))) h
            (All-snoc (Follows log) b.subscribers s h.streams q.follows)

  subscribe_match-Running :
      (match : Event → Bool) → Running generation log (subscribe_match b match)
  unfolding subscribe_match new_waiter with_waiters
  subscribe_match-Running match =
      waiters-Running generation log b (some _) h
        (All-snoc IsOpen b.waiters (new_waiter match) h.waiting (λ on. refl))

  drop_subscription-Running : (i : ℕ) → Leaves (Running generation log) (drop_subscription b i)
  unfolding drop_subscription
  drop_subscription-Running i =
      streams-Running generation log b (only leave_stream i b.subscribers) h (
        only-Leaves (Follows log) leave_stream (leave_stream-Follows log) i b.subscribers h.streams)

  drop_waiter-Running : (i : ℕ) → Leaves (Running generation log) (drop_waiter b i)
  unfolding drop_waiter
  drop_waiter-Running i =
      waiters-Running generation log b (only leave_hint i b.waiters) h
        (only-Leaves IsOpen leave_hint leave_hint-IsOpen i b.waiters h.waiting)

  receive-Running : (i : ℕ) → Leaves (Running generation log) (receive b i)
  unfolding receive
  receive-Running i = streams-Running generation log b (only receive_event i b.subscribers) h (
      only-Leaves (Follows log) receive_event (receive_event-Follows log) i b.subscribers h.streams)

  wait-Running : (i : ℕ) → Leaves (Running generation log) (wait b i)
  unfolding wait receive_hint
  wait-Running i =
      waiters-Running generation log b (only receive_hint i b.waiters) h
        (only-Leaves IsOpen receive_hint (λ w o. o) i b.waiters h.waiting)

-- In every state that the bus reaches, ids are of its generation and count from 1, the ring holds the
-- last 1024 events, every stream follows the log, and every registered channel is open.
pub Reaches-Running :
    {generation : ℕ} {log : List Event} {b : Bus}
    → Reaches generation log b
    → Running generation log b
Reaches-Running {generation} started = new_bus-Running generation
Reaches-Running {generation} (published {log} {b} p r e) =
    subst (Leaves (Running generation (log ++ (stamp b p ∷ [])))) e
      (publish-Running generation log b p (Reaches-Running r))
Reaches-Running {generation} (subscribed {log} {b} from r e) =
    subst (Leaves (Running generation log)) e
      (subscribe_from-Running generation log b (Reaches-Running r) from)
Reaches-Running {generation} (matched {log} {b} match r) =
    subscribe_match-Running generation log b (Reaches-Running r) match
Reaches-Running {generation} (left {log} {b} i r e) =
    subst (Leaves (Running generation log)) e
      (drop_subscription-Running generation log b (Reaches-Running r) i)
Reaches-Running {generation} (unmatched {log} {b} i r e) =
    subst (Leaves (Running generation log)) e
      (drop_waiter-Running generation log b (Reaches-Running r) i)
Reaches-Running {generation} (took {log} {b} i r e) =
    subst (Leaves (Running generation log)) e
      (receive-Running generation log b (Reaches-Running r) i)
Reaches-Running {generation} (woke {log} {b} i r e) =
    subst (Leaves (Running generation log)) e (wait-Running generation log b (Reaches-Running r) i)

-- What a stream was given is a stretch of the log, up to its end while the stream is registered.
abbrev pub Unbroken : List Event → Subscription → Type 0
Unbroken log s =
    (start : ℕ) × (lost : List Event) × (s.replay ++ (s.sent ++ lost) ≡ drop start log)
    × (s.registered ≡ true → lost ≡ [])

Follows-Unbroken : (log : List Event) (s : Subscription) → Follows log s → Unbroken log s
Follows-Unbroken log s h = (h.start, h.lost, ap (λ ys. s.replay ++ ys) h.live ∙ h.whole, h.complete)

All-map :
    {A : Type 0} (P Q : A → Type 0) → ((x : A) → P x → Q x) → (xs : List A) → All P xs → All Q xs
All-map P Q f [] h = tt
All-map {A = A} P Q f (x ∷ xs) h = (f x h.0, All-map P Q f xs h.1)

-- In every state that the bus reaches, the replay of each subscription with the events it was sent after
-- it is one unbroken stretch of all that was published, in order, and for a registered subscription the
-- stretch goes up to the last event.
pub Reaches-Unbroken :
    {generation : ℕ} {log : List Event} {b : Bus}
    → Reaches generation log b
    → All (Unbroken log) b.subscribers
Reaches-Unbroken {log = log} {b = b} r =
    All-map (Follows log) (Unbroken log) (Follows-Unbroken log) b.subscribers
      (Reaches-Running r).streams

Opened-Told :
    (generation : ℕ) (log : List Event) (from : EventId) (o : Option Subscription)
    → Leaves (Opened generation log from) o
    → Leaves (Told generation log from) o
Opened-Told generation log from none q = elim q [ ]
Opened-Told generation log from (some s) q = q.told

-- In every state that the bus reaches, a client that asks to continue from an id is anchored at the last
-- event; without an id it gets no replay and no reset; with one of this generation from which the ring
-- still has every event it gets exactly the events after it; with any other it gets a reset.
pub open_stream-Told :
    {generation : ℕ} {log : List Event} {b : Bus} (from : EventId)
    → Reaches generation log b
    → Leaves (Told generation log from) (open_stream b from)
open_stream-Told {generation} {log} {b} from r =
    Opened-Told generation log from (open_stream b from)
      (open_stream-Opened generation log b from (Reaches-Running r))

-- Every channel that was registered is closed by the end.
abbrev pub AllEnded : Option Bus → Type 0
AllEnded o =
    Leaves
      (λ b.
        (b.stopped ≡ true)
        × All (λ s. s.registered ≡ true → s.closed ≡ true) b.subscribers
        × All (λ w. w.registered ≡ true → w.closed ≡ true) b.waiters)
      o

end_stream-closed :
    (log : List Event) (s : Subscription)
    → Follows log s
    → Leaves (λ t. t.registered ≡ true → t.closed ≡ true) (end_stream s)
unfolding end_stream close_stream
end_stream-closed log s h = elim (Bool-cases s.registered) [
  | inr off ↦
      subst (Leaves (λ t. t.registered ≡ true → t.closed ≡ true))
        (sym (if_false s.registered _ _ off)) (λ on. absurd cc)
  | inl on ↦
      subst (Leaves (λ t. t.registered ≡ true → t.closed ≡ true))
        (sym (if_true s.registered _ _ on ∙ if_false s.closed _ _ (h.is_open on))) (λ e. refl)
]

end_hint-closed :
    (w : Waiter) → IsOpen w → Leaves (λ t. t.registered ≡ true → t.closed ≡ true) (end_hint w)
unfolding end_hint close_hint
end_hint-closed w h = elim (Bool-cases w.registered) [
  | inr off ↦
      subst (Leaves (λ t. t.registered ≡ true → t.closed ≡ true))
        (sym (if_false w.registered _ _ off)) (λ on. absurd cc)
  | inl on ↦
      subst (Leaves (λ t. t.registered ≡ true → t.closed ≡ true))
        (sym (if_true w.registered _ _ on ∙ if_false w.closed _ _ (h on))) (λ e. refl)
]

-- In every state that the bus reaches, its shutdown does not panic, and leaves the channel of every
-- registered subscription and waiter closed.
pub stop-AllEnded :
    {generation : ℕ} {log : List Event} {b : Bus} → Reaches generation log b → AllEnded (stop b)
unfolding stop
stop-AllEnded {log = log} {b = b} r =
    let h = Reaches-Running r in
    join (each end_stream b.subscribers) (each end_hint b.waiters)
      (each-Leaves (Follows log) _ end_stream (end_stream-closed log) b.subscribers h.streams)
      (each-Leaves IsOpen _ end_hint end_hint-closed b.waiters h.waiting)
  where
    join :
        (ss : Option (List Subscription)) (ws : Option (List Waiter))
        → Leaves (All (λ s. s.registered ≡ true → s.closed ≡ true)) ss
        → Leaves (All (λ w. w.registered ≡ true → w.closed ≡ true)) ws
        → AllEnded (elim ss [
          | none ↦ none
          | some subscribers ↦ elim ws [
            | none ↦ none
            | some waiters ↦
                some (record b { subscribers = subscribers; waiters = waiters; stopped = true })
          ]
        ])
    join none ws hs hw = elim hs [ ]
    join (some ss) none hs hw = elim hw [ ]
    join (some ss) (some ws) hs hw = (refl, hs, hw)
