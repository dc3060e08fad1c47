-- ===== src/Tests/Events.antt =====
-- A bus with a client and a waiter, and two events.
use authstunt.Prelude.{
  ◌≡◌, refl, Bool, true, Option, none, some, [], ◌∷◌, ◌++◌, map, get_elem?, All, arith,
}
use authstunt.Sse.Id.{EventId, zero_id, string, parse_event_id}
use authstunt.Sse.RoundTrip.{parse_event_id-string}
use authstunt.Sse.Ring.{Event, new_ring, add, after}
use authstunt.Sse.Ring.Refine.{Added, add-Added}
use authstunt.Sse.Ring.Replay.{missed, after-missed}
use authstunt.Sse.Bus.{
  Publication, Bus, Waiter, new_bus, new_waiter, stamp, publish, subscribe_from, subscribe_match,
  open_stream, stop,
}
use authstunt.Sse.Bus.Streams.{Leaves}
use authstunt.Sse.Bus.Reach.{Reaches, started, published, subscribed, matched}
use authstunt.Sse.Bus.Steps.{Told}
use authstunt.Sse.Bus.Promise.{
  Unbroken, Reaches-Running, Reaches-Unbroken, open_stream-Told, AllEnded, stop-AllEnded,
}
use authstunt.Sse.Bus.Wakeups.{publish_all, stamps, heard, publish_all-heard}
use authstunt.Sse.Hub.{frame, serve, newline, carriage_return}
use authstunt.Sse.Hub.Receiver.{read_stream, cr_at_ends, written, carried, understood}
use authstunt.Sse.Hub.Receipt.{read_stream-frames}
use authstunt.Sse.Hub.Resume.{answer, serve-resumed, serve-answer}

abbrev publication : Publication
publication = record { name = b'm' ∷ []; payload = b'1' ∷ newline ∷ b'2' ∷ []; message = none }

-- The state that a step leaves.
abbrev left_by : Option Bus → Bus
left_by none = new_bus 0
left_by (some b) = b

abbrev anything : Event → Bool
anything ev = true

abbrev joined : Bus
joined = left_by (subscribe_from (new_bus 7) zero_id)

abbrev waiting : Bus
waiting = subscribe_match joined anything

abbrev once : Bus
once = left_by (publish waiting publication)

abbrev twice : Bus
twice = left_by (publish once publication)

abbrev first_event : Event
first_event = stamp waiting publication

abbrev second_event : Event
second_event = stamp once publication

waiting_reached : Reaches 7 [] waiting
unfolding subscribe_from authstunt.Sse.Id.is_zero
waiting_reached = matched anything (subscribed zero_id started refl)

twice_reached : Reaches 7 (first_event ∷ second_event ∷ []) twice
unfolding publish add subscribe_match subscribe_from authstunt.Sse.Id.is_zero new_bus new_ring
twice_reached = published publication (published publication waiting_reached refl) refl

abbrev seen : EventId
seen = record { generation = 7; seq = 1 }

abbrev stale : EventId
stale = record { generation = 6; seq = 9 }

Reaches-Unbroken_example : All (Unbroken (first_event ∷ second_event ∷ [])) twice.subscribers
Reaches-Unbroken_example = Reaches-Unbroken twice_reached

open_stream-Told_example :
    Leaves (Told 7 (first_event ∷ second_event ∷ []) seen) (open_stream twice seen)
open_stream-Told_example = open_stream-Told seen twice_reached

stop-AllEnded_example : AllEnded (stop twice)
stop-AllEnded_example = stop-AllEnded twice_reached

publish_all-heard_example :
    Leaves
      (λ next.
        get_elem? next.waiters 0
        ≡ some (record (new_waiter anything) { buffer = some first_event }))
      (publish_all waiting (publication ∷ publication ∷ []))
unfolding subscribe_match subscribe_from authstunt.Sse.Id.is_zero new_bus heard stamps
publish_all-heard_example =
    publish_all-heard (publication ∷ publication ∷ []) 0 (new_waiter anything) waiting_reached refl
      refl

serve-resumed_example : serve twice (string seen) ≡ some (frame second_event ∷ [])
unfolding authstunt.Sse.Id.is_zero authstunt.Sse.Bus.Steps.continues
serve-resumed_example = serve-resumed seen twice_reached (omega arith) (omega arith) refl refl

-- An id of another generation.
serve-answer_example :
    serve twice (string stale)
    ≡ some (map frame (answer 7 (first_event ∷ second_event ∷ []) (string stale)))
serve-answer_example = serve-answer (string stale) twice_reached

parse_event_id-string_example : parse_event_id (string seen) ≡ some seen
parse_event_id-string_example = parse_event_id-string seen (omega arith) (omega arith)

-- A name on one line, and a payload of two lines that end in CR LF.
abbrev two_lines : Event
two_lines = record first_event { payload = b'1' ∷ carriage_return ∷ newline ∷ b'2' ∷ [] }

read_stream-frames_example :
    map understood (read_stream (written (map frame (two_lines ∷ second_event ∷ []))))
    ≡ carried two_lines ∷ carried second_event ∷ []
unfolding cr_at_ends authstunt.Sse.Bus.stamp
read_stream-frames_example =
    read_stream-frames (two_lines ∷ second_event ∷ [])
      (((refl, tt), refl), (((refl, tt), refl), tt))

add-Added_example :
    Added
      ((first_event ∷ second_event ∷ []) ++ (first_event ∷ []))
      twice.replay.size
      (add twice.replay first_event)
add-Added_example =
    add-Added (first_event ∷ second_event ∷ []) twice.replay first_event
      (Reaches-Running twice_reached).ring

after-missed_example :
    after twice.replay seen ≡ missed twice.replay.size (first_event ∷ second_event ∷ []) 1
after-missed_example =
    after-missed (first_event ∷ second_event ∷ []) twice.replay seen
      (Reaches-Running twice_reached).ring (Reaches-Running twice_reached).numbered
