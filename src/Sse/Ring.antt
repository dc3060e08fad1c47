-- ===== src/Sse/Ring.antt =====
-- internal/sse/ring.go: the last events, in a slice of fixed capacity that is overwritten in turn.
pub mod Refine
pub mod Replay
use authstunt.Prelude.{
  ℕ, suc, ◌+◌, ◌-◌, ◌%◌, Text, Bool, true, false, Option, none, some, List, [], ◌∷◌, ◌++◌, length,
  set, take, drop, ltb, ◌==◌, ◌||◌, if◌then◌else◌,
}
use authstunt.Sse.Id.{EventId}

-- What a long-poll matcher reads.
pub record MessageRef : Type 0 where
  pub id : ℕ
  pub project_id : ℕ
  pub subject : Text
  pub recipients : List Text
  pub received_at : ℕ

pub record Event : Type 0 where
  pub id : EventId
  pub name : Text
  pub payload : Text
  pub message : Option MessageRef

abbrev pub ring_size : ℕ
ring_size = 1024

-- `size` is the capacity of the slice.
pub record Ring : Type 0 where
  pub events : List Event
  pub next : ℕ
  pub size : ℕ

unfoldable pub new_ring : ℕ → Ring
new_ring size = record { events = []; next = 0; size = size }

-- `none` where an index is out of range, at which the program panics.
unfoldable pub add : Ring → Event → Option Ring
add r ev =
    if ltb (length r.events) r.size
    then some (record r { events = r.events ++ (ev ∷ []) })
    else if ltb r.next (length r.events)
    then some (record r { events = set r.events r.next ev; next = (r.next + 1) % length r.events })
    else none

unfoldable pub snapshot : Ring → List Event
snapshot r = if r.next == 0 then r.events else drop r.next r.events ++ take r.next r.events

unfoldable pub newest : Event → List Event → Event
newest ev [] = ev
newest ev (next ∷ rest) = newest next rest

-- The events after an id, or a gap; `panics` is a slice whose start is below 0.
pub data Answer : Type 0 where
  replayed : List Event → Answer
  gap panics : Answer

unfoldable pub slice_last : List Event → ℕ → Answer
slice_last all n = if ltb (length all) n then panics else replayed (drop (length all - n) all)

unfoldable pub after_in : List Event → ℕ → Answer
unfolding newest slice_last
after_in [] seq = if seq == 0 then replayed [] else gap
after_in (oldest ∷ rest) seq =
    let last = (newest oldest rest).id.seq in
    if ltb seq (oldest.id.seq - 1) || ltb last seq
    then gap
    else slice_last (oldest ∷ rest) (last - seq)

unfoldable pub after : Ring → EventId → Answer
unfolding snapshot after_in
after r id = after_in (snapshot r) id.seq
