-- ===== src/Sse/Bus.antt =====
-- internal/sse/bus.go and waiters.go: the goroutine that owns the subscribers, the waiters and the ring.
-- A channel is what was sent on it and how much of that was received; a send on a closed channel, and
-- a second close, panic.
pub mod Streams
pub mod Reach
pub mod Steps
pub mod Promise
pub mod Wakeups
use authstunt.Prelude.{
  ℕ, zero, suc, ◌+◌, ◌-◌, Text, Bool, true, false, Option, none, some, List, [], ◌∷◌, ◌++◌, length,
  ltb, ◌==◌, ◌||◌, if◌then◌else◌,
}
use authstunt.Sse.Id.{EventId, is_zero}
use authstunt.Sse.Ring.{
  MessageRef, Event, ring_size, Ring, new_ring, add, Answer, replayed, gap, panics, after,
}

abbrev pub subscriber_buffer : ℕ
subscriber_buffer = 64

pub record Publication : Type 0 where
  pub name : Text
  pub payload : Text
  pub message : Option MessageRef

-- `registered` says that it is in the bus's set of subscribers.
pub record Subscription : Type 0 where
  pub replay : List Event
  pub reset : Bool
  pub anchor : EventId
  pub sent : List Event
  pub received : ℕ
  pub closed : Bool
  pub evicted : Bool
  pub registered : Bool

-- The channel of a waiter holds one event.
pub record Waiter : Type 0 where
  pub match : Event → Bool
  pub buffer : Option Event
  pub closed : Bool
  pub registered : Bool

-- The subscriptions and waiters that were ever made, in order; a pointer is a position.
pub record Bus : Type 0 where
  pub generation : ℕ
  pub seq : ℕ
  pub replay : Ring
  pub subscribers : List Subscription
  pub waiters : List Waiter
  pub stopped : Bool

unfoldable pub new_bus : ℕ → Bus
new_bus generation = record {
  generation = generation;
  seq = 0;
  replay = new_ring ring_size;
  subscribers = [];
  waiters = [];
  stopped = false;
}

-- `(*Subscription).deliver`.
unfoldable pub deliver_stream : Event → Subscription → Option Subscription
deliver_stream ev s =
    if s.closed
    then none
    else if ltb (length s.sent - s.received) subscriber_buffer
    then some (record s { sent = s.sent ++ (ev ∷ []) })
    else some (record s { evicted = true; closed = true; registered = false })

-- `(*Waiter).deliver`.
unfoldable pub deliver_hint : Event → Waiter → Option Waiter
deliver_hint ev w =
    if w.closed
    then none
    else elim w.buffer [ none ↦ some (record w { buffer = some ev }) | some first ↦ some w ]

-- A loop over a set, which stops where its body panics.
unfoldable pub each {ℓ} : {A : Type ℓ} → (A → Option A) → List A → Option (List A)
each f [] = some []
each f (x ∷ xs) =
    let rest = each f xs in
    elim (f x) [ none ↦ none | some y ↦ elim rest [ none ↦ none | some ys ↦ some (y ∷ ys) ] ]

unfoldable pub fan_out : Event → Subscription → Option Subscription
unfolding deliver_stream
fan_out ev s = if s.registered then deliver_stream ev s else some s

unfoldable pub wake : Event → Waiter → Option Waiter
unfolding deliver_hint
wake ev w = if w.registered then (if w.match ev then deliver_hint ev w else some w) else some w

unfoldable pub stamp : Bus → Publication → Event
stamp b p = record {
  id = record { generation = b.generation; seq = b.seq + 1 };
  name = p.name;
  payload = p.payload;
  message = p.message;
}

-- A publication, `none` where the goroutine panics.
unfoldable pub publish : Bus → Publication → Option Bus
unfolding stamp each fan_out wake
publish b p =
    let ev = stamp b p in
    elim (add b.replay ev) [
      | none ↦ none
      | some replay ↦ elim (each (wake ev) b.waiters) [
        | none ↦ none
        | some waiters ↦ elim (each (fan_out ev) b.subscribers) [
          | none ↦ none
          | some subscribers ↦ some (record b {
            seq = b.seq + 1;
            replay = replay;
            subscribers = subscribers;
            waiters = waiters;
          })
        ]
      ]
    ]

unfoldable pub new_subscription : EventId → Subscription
new_subscription anchor = record {
  replay = [];
  reset = false;
  anchor = anchor;
  sent = [];
  received = 0;
  closed = false;
  evicted = false;
  registered = true;
}

unfoldable pub with_replay : Subscription → Answer → Option Subscription
with_replay s (replayed missed) = some (record s { replay = missed })
with_replay s gap = some (record s { reset = true })
with_replay s panics = none

-- What a client that last saw `from` is told.
unfoldable pub open_stream : Bus → EventId → Option Subscription
unfolding new_subscription with_replay
open_stream b from =
    let s = new_subscription (record { generation = b.generation; seq = b.seq }) in
    if is_zero from
    then some s
    else if from.generation == b.generation
    then with_replay s (after b.replay from)
    else some (record s { reset = true })

unfoldable pub subscribe_from : Bus → EventId → Option Bus
unfolding open_stream
subscribe_from b from = elim (open_stream b from) [
  | none ↦ none
  | some s ↦ some (record b { subscribers = b.subscribers ++ (s ∷ []) })
]

unfoldable pub new_waiter : (Event → Bool) → Waiter
new_waiter match = record { match = match; buffer = none; closed = false; registered = true }

unfoldable pub subscribe_match : Bus → (Event → Bool) → Bus
unfolding new_waiter
subscribe_match b match = record b { waiters = b.waiters ++ (new_waiter match ∷ []) }

unfoldable pub close_stream : Subscription → Option Subscription
close_stream s = if s.closed then none else some (record s { closed = true })

unfoldable pub close_hint : Waiter → Option Waiter
close_hint w = if w.closed then none else some (record w { closed = true })

unfoldable pub leave_stream : Subscription → Option Subscription
unfolding close_stream
leave_stream s = if s.registered then close_stream (record s { registered = false }) else some s

unfoldable pub leave_hint : Waiter → Option Waiter
unfolding close_hint
leave_hint w = if w.registered then close_hint (record w { registered = false }) else some w

-- The body is run on one element.
unfoldable pub only {ℓ} : {A : Type ℓ} → (A → Option A) → ℕ → List A → Option (List A)
only f i [] = some []
only f zero (x ∷ xs) = elim (f x) [ none ↦ none | some y ↦ some (y ∷ xs) ]
only f (suc i) (x ∷ xs) = elim (only f i xs) [ none ↦ none | some ys ↦ some (x ∷ ys) ]

unfoldable pub with_subscribers : Bus → Option (List Subscription) → Option Bus
with_subscribers b none = none
with_subscribers b (some subscribers) = some (record b { subscribers = subscribers })

unfoldable pub with_waiters : Bus → Option (List Waiter) → Option Bus
with_waiters b none = none
with_waiters b (some waiters) = some (record b { waiters = waiters })

-- `Close` of a subscription and of a waiter, as the goroutine serves them.
unfoldable pub drop_subscription : Bus → ℕ → Option Bus
unfolding with_subscribers leave_stream only
drop_subscription b i = with_subscribers b (only leave_stream i b.subscribers)

unfoldable pub drop_waiter : Bus → ℕ → Option Bus
unfolding with_waiters leave_hint only
drop_waiter b i = with_waiters b (only leave_hint i b.waiters)

-- A receive from a channel.
unfoldable pub receive_event : Subscription → Option Subscription
receive_event s =
    if ltb s.received (length s.sent) then some (record s { received = s.received + 1 }) else some s

unfoldable pub receive_hint : Waiter → Option Waiter
receive_hint w = some (record w { buffer = none })

unfoldable pub receive : Bus → ℕ → Option Bus
unfolding with_subscribers receive_event only
receive b i = with_subscribers b (only receive_event i b.subscribers)

-- `Wait`, once there is something to receive.
unfoldable pub wait : Bus → ℕ → Option Bus
unfolding with_waiters receive_hint only
wait b i = with_waiters b (only receive_hint i b.waiters)

unfoldable pub end_stream : Subscription → Option Subscription
unfolding close_stream
end_stream s = if s.registered then close_stream s else some s

unfoldable pub end_hint : Waiter → Option Waiter
unfolding close_hint
end_hint w = if w.registered then close_hint w else some w

-- The deferred function of `Run`: everyone is released.
unfoldable pub stop : Bus → Option Bus
unfolding end_stream end_hint each
stop b = elim (each end_stream b.subscribers) [
  | none ↦ none
  | some subscribers ↦ elim (each end_hint b.waiters) [
    | none ↦ none
    | some waiters ↦
        some (record b { subscribers = subscribers; waiters = waiters; stopped = true })
  ]
]
