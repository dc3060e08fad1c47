-- ===== src/Sse/Hub.antt =====
-- internal/sse/hub.go: the stream of one client, as the frames that are written. A sink that fails ends
-- the stream, and is left out.
pub mod Receiver
pub mod Payload
pub mod Receipt
pub mod Resume
use authstunt.Prelude.{
  ℕ, Text, Bool, true, false, Option, none, some, List, [], ◌∷◌, ◌++◌, map, ◌==◌, ◌||◌,
  if◌then◌else◌,
}
use authstunt.Sse.Id.{EventId, zero_id, string, parse_event_id}
use authstunt.Sse.Ring.{Event}
use authstunt.Sse.Bus.{Subscription, Bus, open_stream}

abbrev pub newline : ℕ
newline = 10

abbrev pub carriage_return : ℕ
carriage_return = 13

-- `ResetEventName`, and the payload of a reset.
abbrev pub reset_event_name : Text
reset_event_name = b'r' ∷ b'e' ∷ b's' ∷ b'e' ∷ b't' ∷ []

abbrev pub reset_data : Text
reset_data = b'{' ∷ b'}' ∷ []

abbrev pub id_field : Text
id_field = b'i' ∷ b'd' ∷ b':' ∷ b' ' ∷ []

abbrev pub event_field : Text
event_field = b'e' ∷ b'v' ∷ b'e' ∷ b'n' ∷ b't' ∷ b':' ∷ b' ' ∷ []

abbrev pub data_field : Text
data_field = b'd' ∷ b'a' ∷ b't' ∷ b'a' ∷ b':' ∷ b' ' ∷ []

-- A byte in front of the first of the lines.
unfoldable pub grow : ℕ → List Text → List Text
grow c [] = (c ∷ []) ∷ []
grow c (line ∷ lines) = (c ∷ line) ∷ lines

-- `bytes.Split(data, "\n")`.
unfoldable pub split_lines : Text → List Text
unfolding grow
split_lines [] = [] ∷ []
split_lines (c ∷ s) = let rest = split_lines s in if c == newline then [] ∷ rest else grow c rest

-- `bytes.TrimSuffix(line, "\r")`.
unfoldable pub trim_cr : Text → Text
trim_cr [] = []
trim_cr (c ∷ []) = if c == carriage_return then [] else c ∷ []
trim_cr (c ∷ d ∷ s) = c ∷ trim_cr (d ∷ s)

unfoldable pub data_lines : List Text → Text
unfolding trim_cr
data_lines [] = []
data_lines (line ∷ lines) = (data_field ++ (trim_cr line ++ (newline ∷ []))) ++ data_lines lines

-- What `writeFrame` writes.
unfoldable pub frame : Event → Text
unfolding string split_lines data_lines
frame ev =
    (id_field ++ (string ev.id ++ (newline ∷ [])))
    ++ ((event_field ++ (ev.name ++ (newline ∷ [])))
        ++ (data_lines (split_lines ev.payload) ++ (newline ∷ [])))

unfoldable pub reset_event : EventId → Event
reset_event anchor = record {
  id = anchor;
  name = reset_event_name;
  payload = reset_data;
  message = none;
}

-- The id to continue from, and whether the header could not be read.
unfoldable pub requested : Text → EventId × Bool
unfolding parse_event_id
requested [] = (zero_id, false)
requested (c ∷ s) = elim (parse_event_id (c ∷ s)) [
  | none ↦ (zero_id, true)
  | some parsed ↦ (parsed, false)
]

-- What a new stream begins with.
unfoldable pub greeting : Bool → Subscription → List Event
unfolding reset_event
greeting malformed sub =
    if sub.reset || malformed then reset_event sub.anchor ∷ sub.replay else sub.replay

-- What `Serve` has written once it has served what was sent so far.
unfoldable pub served : Bool → Subscription → List Text
unfolding frame greeting
served malformed sub = map frame (greeting malformed sub ++ sub.sent)

unfoldable pub serve_from : Bus → EventId × Bool → Option (List Text)
unfolding open_stream served
serve_from b (from, malformed) = elim (open_stream b from) [
  | none ↦ none
  | some sub ↦ some (served malformed sub)
]

-- The start of `Serve`: `none` where the bus panics.
unfoldable pub serve : Bus → Text → Option (List Text)
unfolding requested serve_from
serve b last_event_id = serve_from b (requested last_event_id)
