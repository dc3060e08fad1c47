-- ===== src/Sse/Hub/Receiver.antt =====
-- A receiver of the frames that internal/sse/hub.go writes (`writeFrame`), as a description of their form.
use authstunt.Prelude.{
  ℕ, ◌≡◌, Text, Bool, true, false, Option, none, some, List, [], ◌∷◌, ◌++◌, All, ◌==◌, ◌&&◌,
  if◌then◌else◌,
}
use authstunt.Sse.Id.{string}
use authstunt.Sse.Ring.{Event}
use authstunt.Sse.Hub.{newline, carriage_return, id_field, event_field, data_field}

-- A receiver that ends lines at a newline and keeps every other byte, as one that reads lines does. A
-- line that is not ended is not read.
abbrev pub extend : ℕ → List Text → List Text
extend c [] = []
extend c (line ∷ lines) = (c ∷ line) ∷ lines

unfoldable pub lines_of : Text → List Text
lines_of [] = []
lines_of (c ∷ s) = let rest = lines_of s in if c == newline then [] ∷ rest else extend c rest

-- What it has of an event: `values` are those of the data lines.
pub record Received : Type 0 where
  pub id : Text
  pub name : Text
  pub values : List Text

abbrev pub nothing_yet : Received
nothing_yet = record { id = []; name = []; values = [] }

-- The value behind a field's name.
unfoldable pub value_of : Text → Text → Option Text
value_of [] s = some s
value_of (p ∷ ps) [] = none
value_of (p ∷ ps) (c ∷ s) = let rest = value_of ps s in if p == c then rest else none

unfoldable pub read_field : Text → Received → Received
unfolding value_of
read_field line r = elim (value_of id_field line) [
  | some v ↦ record r { id = v }
  | none ↦ elim (value_of event_field line) [
    | some v ↦ record r { name = v }
    | none ↦ elim (value_of data_field line) [
      | some v ↦ record r { values = r.values ++ (v ∷ []) }
      | none ↦ r
    ]
  ]
]

-- An empty line ends an event.
unfoldable pub read_lines : Received → List Text → List Received
read_lines r [] = []
read_lines r ([] ∷ lines) = r ∷ read_lines nothing_yet lines
read_lines r ((c ∷ line) ∷ lines) = read_lines (read_field (c ∷ line) r) lines

unfoldable pub read_stream : Text → List Received
unfolding lines_of read_lines read_field
read_stream s = read_lines nothing_yet (lines_of s)

-- The values of an event joined with newlines.
unfoldable pub join_lines : List Text → Text
join_lines [] = []
join_lines (line ∷ []) = line
join_lines (line ∷ next ∷ lines) = line ++ (newline ∷ join_lines (next ∷ lines))

-- What stays of a payload whose lines may end in CR LF.
unfoldable pub without_cr : Text → Text
without_cr [] = []
without_cr (c ∷ s) = let rest = without_cr s in if c == carriage_return then rest else c ∷ rest

-- Carriage returns only in front of a newline, or last.
abbrev pub line_end : Text → Bool
line_end [] = true
line_end (c ∷ s) = c == newline

unfoldable pub cr_at_ends : Text → Bool
cr_at_ends [] = true
cr_at_ends (c ∷ s) =
    let rest = cr_at_ends s in (if c == carriage_return then line_end s else true) && rest

abbrev pub IsLine : Text → Type 0
IsLine s = All (λ c. (c == newline) ≡ false) s

abbrev pub written : List Text → Text
written [] = []
written (t ∷ ts) = t ++ written ts

-- The part of an event that a frame carries.
abbrev pub Carried : Type 0
Carried = Text × (Text × Text)

abbrev pub carried : Event → Carried
carried ev = (string ev.id, (ev.name, without_cr ev.payload))

abbrev pub understood : Received → Carried
understood r = (r.id, (r.name, join_lines r.values))

-- A name on one line, and a payload that has carriage returns at the ends of lines only.
abbrev pub IsWritable : Event → Type 0
IsWritable ev = IsLine ev.name × (cr_at_ends ev.payload ≡ true)
