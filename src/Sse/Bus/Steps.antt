-- ===== src/Sse/Bus/Steps.antt =====
-- Each step of the bus (internal/sse/bus.go) keeps its invariant, and none panics.
use authstunt.Prelude.{
  ℕ, ◌+◌, ◌≤◌, ◌≡◌, refl, sym, ap, subst, ◌∙◌, inl, inr, Bool, true, false, not, Option, none, some,
  List, [], ◌∷◌, ◌++◌, length, drop, All, ltb, leb, ◌==◌, ◌||◌, ◌&&◌, Bool-cases, if_true, if_false,
  arith, length-append, or_left_false, drop_all, ltb_false→le,
}
use mathlib.Core.List.{append-nil}
use authstunt.Sse.Id.{EventId, is_zero}
use authstunt.Sse.Ring.{Event, Ring, ring_size, new_ring, add, after}
use authstunt.Sse.Ring.Refine.{Added, new_ring-Holds, add-Added}
use authstunt.Sse.Ring.Replay.{missed, after-missed}
use authstunt.Sse.Bus.{
  Publication, Subscription, Waiter, Bus, new_bus, stamp, publish, fan_out, wake, each,
  new_subscription, with_replay, open_stream, with_subscribers, with_waiters,
}
use authstunt.Sse.Bus.Streams.{Follows, Leaves, each-Leaves, fan_out-Follows}
use authstunt.Sse.Bus.Reach.{IsOpen, OfGeneration, Running, Numbered-snoc, All-snoc, wake-IsOpen}

pub new_bus-Running : (generation : ℕ) → Running generation [] (new_bus generation)
unfolding new_bus new_ring
new_bus-Running generation = record {
  of_bus = refl;
  counted = refl;
  numbered = tt;
  generations = tt;
  ring = new_ring-Holds ring_size (omega arith);
  capacity = refl;
  streams = tt;
  waiting = tt;
}

pub publish-Running :
    (generation : ℕ) (log : List Event) (b : Bus) (p : Publication)
    → Running generation log b
    → Leaves (Running generation (log ++ (stamp b p ∷ []))) (publish b p)
unfolding publish stamp
publish-Running generation log b p h =
    join (add b.replay (stamp b p)) (each (wake (stamp b p)) b.waiters)
      (each (fan_out (stamp b p)) b.subscribers) (add-Added log b.replay (stamp b p) h.ring)
      (each-Leaves IsOpen IsOpen (wake (stamp b p)) (wake-IsOpen (stamp b p)) b.waiters h.waiting)
      (each-Leaves (Follows log) (Follows (log ++ (stamp b p ∷ []))) (fan_out (stamp b p))
        (fan_out-Follows log (stamp b p)) b.subscribers h.streams)
  where
    join :
        (r : Option Ring) (ws : Option (List Waiter)) (ss : Option (List Subscription))
        → Added (log ++ (stamp b p ∷ [])) b.replay.size r
        → Leaves (All IsOpen) ws
        → Leaves (All (Follows (log ++ (stamp b p ∷ [])))) ss
        → Leaves (Running generation (log ++ (stamp b p ∷ []))) (elim r [
          | none ↦ none
          | some replay ↦ elim ws [
            | none ↦ none
            | some waiters ↦ elim ss [
              | none ↦ none
              | some subscribers ↦ some (record b {
                seq = b.seq + 1;
                replay = replay;
                subscribers = subscribers;
                waiters = waiters;
              })
            ]
          ]
        ])
    join none ws ss a hw hs = elim a [ ]
    join (some r) none ss a hw hs = elim hw [ ]
    join (some r) (some ws) none a hw hs = elim hs [ ]
    join (some r) (some ws) (some ss) a hw hs = record {
      of_bus = h.of_bus;
      counted = omega (arith, h.counted, length-append log (stamp b p ∷ []));
      numbered = Numbered-snoc 0 log (stamp b p) h.numbered (omega (arith, h.counted));
      generations = All-snoc (OfGeneration generation) log (stamp b p) h.generations h.of_bus;
      ring = a.0;
      capacity = a.1 ∙ h.capacity;
      streams = hs;
      waiting = hw;
    }

pub streams-Running :
    (generation : ℕ) (log : List Event) (b : Bus) (ss : Option (List Subscription))
    → Running generation log b
    → Leaves (All (Follows log)) ss
    → Leaves (Running generation log) (with_subscribers b ss)
unfolding with_subscribers
streams-Running generation log b none h hs = elim hs [ ]
streams-Running generation log b (some ss) h hs = record {
  of_bus = h.of_bus;
  counted = h.counted;
  numbered = h.numbered;
  generations = h.generations;
  ring = h.ring;
  capacity = h.capacity;
  streams = hs;
  waiting = h.waiting;
}

pub waiters-Running :
    (generation : ℕ) (log : List Event) (b : Bus) (ws : Option (List Waiter))
    → Running generation log b
    → Leaves (All IsOpen) ws
    → Leaves (Running generation log) (with_waiters b ws)
unfolding with_waiters
waiters-Running generation log b none h hw = elim hw [ ]
waiters-Running generation log b (some ws) h hw = record {
  of_bus = h.of_bus;
  counted = h.counted;
  numbered = h.numbered;
  generations = h.generations;
  ring = h.ring;
  capacity = h.capacity;
  streams = h.streams;
  waiting = hw;
}

-- Whether the events after an id are all in the ring.
unfoldable pub continues : ℕ → List Event → EventId → Bool
continues generation log from =
    from.generation == generation
    && (leb from.seq (length log) && leb (length log) (from.seq + ring_size))

-- What a client that last saw `from` is to be told.
pub record Told (generation : ℕ) (log : List Event) (from : EventId) (s : Subscription)
    : Type 0 where
  pub anchored : s.anchor ≡ record { generation = generation; seq = length log }
  pub unsent : s.sent ≡ []
  pub fresh : is_zero from ≡ true → (s.reset ≡ false) × (s.replay ≡ [])
  pub continued :
      is_zero from ≡ false
      → continues generation log from ≡ true
      → (s.reset ≡ false) × (s.replay ≡ drop from.seq log)
  pub broken :
      is_zero from ≡ false
      → continues generation log from ≡ false
      → (s.reset ≡ true) × (s.replay ≡ [])

continues-lost :
    (generation : ℕ) (log : List Event) (from : EventId) (lost : Bool)
    → (from.generation == generation) ≡ true
    → (ltb (length log) from.seq || ltb (from.seq + ring_size) (length log)) ≡ lost
    → continues generation log from ≡ not lost
unfolding continues
continues-lost generation log from lost same e = rw same (ground arith)

continues-other :
    (generation : ℕ) (log : List Event) (from : EventId)
    → (from.generation == generation) ≡ false
    → continues generation log from ≡ false
unfolding continues
continues-other generation log from other = rw other refl

pub record Opened (generation : ℕ) (log : List Event) (from : EventId) (s : Subscription)
    : Type 0 where
  pub told : Told generation log from s
  pub follows : Follows log s

module _ (generation : ℕ) (log : List Event) (b : Bus) (from : EventId)
    (h : Running generation log b) where
  abbrev fresh_stream : Subscription
  fresh_stream = new_subscription (record { generation = b.generation; seq = b.seq })

  -- The log from a point on, as a replay and the events to come.
  opened-Follows :
      (start : ℕ) (reset : Bool) (replay : List Event)
      → start ≤ length log
      → replay ≡ drop start log
      → Follows log (record fresh_stream { reset = reset; replay = replay })
  unfolding new_subscription
  opened-Follows start reset replay le e = record {
    start = start;
    lost = [];
    within = le;
    anchored = omega (arith, h.counted);
    live = sym at_end;
    whole = ap (λ ys. replay ++ ys) at_end ∙ append-nil replay ∙ e;
    complete = λ on. refl;
    is_open = λ on. refl;
    bounded = omega arith;
    in_turn = omega arith;
  }
    where
      at_end : drop b.seq log ≡ []
      at_end = drop_all b.seq log (omega (arith, h.counted))

  anchored-here : fresh_stream.anchor ≡ record { generation = generation; seq = length log }
  unfolding new_subscription
  anchored-here = rw (h.of_bus, h.counted) refl

  reset-Opened :
      is_zero from ≡ false
      → continues generation log from ≡ false
      → Opened generation log from (record fresh_stream { reset = true })
  unfolding new_subscription
  reset-Opened nz broken = record {
    told = record {
      anchored = anchored-here;
      unsent = refl;
      fresh = λ z. absurd cc;
      continued = λ n c. absurd cc;
      broken = λ n c. (refl, refl);
    };
    follows =
        opened-Follows (length log) true [] (omega arith)
          (sym (drop_all (length log) log (omega arith)));
  }

  zero-Opened : is_zero from ≡ true → Opened generation log from fresh_stream
  unfolding new_subscription
  zero-Opened z = record {
    told = record {
      anchored = anchored-here;
      unsent = refl;
      fresh = λ y. (refl, refl);
      continued = λ n c. absurd cc;
      broken = λ n c. absurd cc;
    };
    follows =
        opened-Follows (length log) false [] (omega arith)
          (sym (drop_all (length log) log (omega arith)));
  }

  replay-Opened :
      is_zero from ≡ false
      → from.seq ≤ length log
      → continues generation log from ≡ true
      → Opened generation log from (record fresh_stream { replay = drop from.seq log })
  unfolding new_subscription
  replay-Opened nz le c = record {
    told = record {
      anchored = anchored-here;
      unsent = refl;
      fresh = λ z. absurd cc;
      continued = λ n d. (refl, refl);
      broken = λ n d. absurd cc;
    };
    follows = opened-Follows from.seq false (drop from.seq log) le refl;
  }

  answer-Opened :
      is_zero from ≡ false
      → (from.generation == generation) ≡ true
      → Leaves
          (Opened generation log from)
          (with_replay fresh_stream (missed ring_size log from.seq))
  unfolding missed with_replay
  answer-Opened nz same =
      elim (Bool-cases (ltb (length log) from.seq || ltb (from.seq + ring_size) (length log))) [
        | inl lost ↦ rw lost (reset-Opened nz (continues-lost generation log from true same lost))
        | inr kept ↦ rw kept (
            replay-Opened nz (ltb_false→le _ _ (or_left_false _ _ kept))
              (continues-lost generation log from false same kept))
      ]

  pub open_stream-Opened : Leaves (Opened generation log from) (open_stream b from)
  unfolding open_stream continues
  open_stream-Opened = elim (Bool-cases (is_zero from)) [
    | inl z ↦ opens (if_true _ _ _ z) (zero-Opened z)
    | inr nz ↦ elim (Bool-cases (from.generation == b.generation)) [
      | inr other ↦ opens (if_false _ _ _ nz ∙ if_false _ _ _ other) (
          reset-Opened nz (
            continues-other generation log from
              (subst (λ g. (from.generation == g) ≡ false) h.of_bus other)))
      | inl same ↦
          subst (Leaves (Opened generation log from))
            (sym (if_false _ _ _ nz ∙ if_true _ _ _ same ∙ ap (with_replay fresh_stream) answered))
            (answer-Opened nz (subst (λ g. (from.generation == g) ≡ true) h.of_bus same))
    ]
  ]
    where
      answered : after b.replay from ≡ missed ring_size log from.seq
      answered =
          after-missed log b.replay from h.ring h.numbered
          ∙ ap (λ size. missed size log from.seq) h.capacity

      opens :
          {t : Subscription}
          → open_stream b from ≡ some t
          → Opened generation log from t
          → Leaves (Opened generation log from) (open_stream b from)
      opens e f = subst (Leaves (Opened generation log from)) (sym e) f
