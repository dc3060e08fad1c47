-- ===== src/Sse/Hub/Receipt.antt =====
-- The frames of a stream (internal/sse/hub.go: `writeFrame`) as their receiver reads them.
use authstunt.Prelude.{
  ℕ, ◌≤◌, ◌≡◌, refl, sym, ap, ◌∙◌, inl, inr, Text, false, List, [], ◌∷◌, ◌++◌, map, All, ◌==◌,
  Bool-cases, if_false, arith,
}
use mathlib.Core.List.{append_assoc, append-nil}
use authstunt.Sse.Id.{string}
use authstunt.Sse.Ring.{Event}
use authstunt.Sse.RoundTrip.{string-All}
use authstunt.Sse.Hub.{
  newline, carriage_return, id_field, event_field, data_field, grow, split_lines, trim_cr,
  data_lines, frame,
}
use authstunt.Sse.Hub.Receiver.{
  extend, lines_of, Received, nothing_yet, value_of, read_field, read_lines, read_stream, IsLine,
  written, carried, understood, IsWritable,
}
use authstunt.Sse.Hub.Payload.{join_lines-split_lines}

lines_of-line : (line s : Text) → IsLine line → lines_of (line ++ (newline ∷ s)) ≡ line ∷ lines_of s
unfolding lines_of
lines_of-line [] s h = refl
lines_of-line (c ∷ line) s h =
    if_false (c == newline) _ _ h.0 ∙ ap (extend c) (lines_of-line line s h.1)

append-IsLine : (s t : Text) → IsLine s → IsLine t → IsLine (s ++ t)
append-IsLine [] t h k = k
append-IsLine (c ∷ s) t h k = (h.0, append-IsLine s t h.1 k)

-- One field of a frame.
lines_of-field :
    (field value s : Text)
    → IsLine field
    → IsLine value
    → lines_of ((field ++ (value ++ (newline ∷ []))) ++ s) ≡ (field ++ value) ∷ lines_of s
lines_of-field field value s h k =
    ap lines_of (
      append_assoc field (value ++ (newline ∷ [])) s
      ∙ ap (λ t. field ++ t) (append_assoc value (newline ∷ []) s)
      ∙ sym (append_assoc field value (newline ∷ s)))
    ∙ lines_of-line (field ++ value) s (append-IsLine field value h k)

string-IsLine : (ev : Event) → IsLine (string ev.id)
string-IsLine ev = above (string ev.id) (string-All ev.id)
  where
    above : (s : Text) → All (λ c. 45 ≤ c) s → IsLine s
    above [] h = tt
    above (c ∷ s) h = (ground (arith, h.0), above s h.1)

trim_cr-IsLine : (s : Text) → IsLine s → IsLine (trim_cr s)
unfolding trim_cr
trim_cr-IsLine [] h = tt
trim_cr-IsLine (c ∷ []) h = elim (Bool-cases (c == carriage_return)) [
  | inl e ↦ rw e tt
  | inr e ↦ rw e h
]
trim_cr-IsLine (c ∷ d ∷ s) h = (h.0, trim_cr-IsLine (d ∷ s) h.1)

grow-IsLine :
    (c : ℕ) (lines : List Text)
    → (c == newline) ≡ false
    → All IsLine lines
    → All IsLine (grow c lines)
unfolding grow
grow-IsLine c [] h hs = ((h, tt), tt)
grow-IsLine c (line ∷ lines) h hs = ((h, hs.0), hs.1)

split_lines-IsLine : (s : Text) → All IsLine (split_lines s)
unfolding split_lines
split_lines-IsLine [] = (tt, tt)
split_lines-IsLine (c ∷ s) = elim (Bool-cases (c == newline)) [
  | inl e ↦ rw e (tt, split_lines-IsLine s)
  | inr e ↦ rw e (grow-IsLine c (split_lines s) e (split_lines-IsLine s))
]

abbrev data_line : Text → Text
data_line line = data_field ++ trim_cr line

lines_of-data_lines :
    (lines : List Text) (s : Text)
    → All IsLine lines
    → lines_of (data_lines lines ++ s) ≡ map data_line lines ++ lines_of s
unfolding data_lines
lines_of-data_lines [] s h = refl
lines_of-data_lines (line ∷ lines) s h =
    ap lines_of (append_assoc (data_field ++ (trim_cr line ++ (newline ∷ []))) (data_lines lines) s)
    ∙ lines_of-field data_field (trim_cr line) (data_lines lines ++ s)
        (refl, (refl, (refl, (refl, (refl, (refl, tt)))))) (trim_cr-IsLine line h.0)
    ∙ ap (λ ls. data_line line ∷ ls) (lines_of-data_lines lines s h.1)

-- The lines of a frame.
lines_of-frame :
    (ev : Event) (s : Text)
    → IsLine ev.name
    → lines_of (frame ev ++ s)
      ≡ (id_field ++ string ev.id)
        ∷ (event_field ++ ev.name)
        ∷ (map data_line (split_lines ev.payload) ++ ([] ∷ lines_of s))
unfolding frame
lines_of-frame ev s h =
    ap lines_of (append_assoc id_part (event_part ++ data_part) s)
    ∙ lines_of-field id_field (string ev.id) ((event_part ++ data_part) ++ s)
        (refl, (refl, (refl, (refl, tt)))) (string-IsLine ev)
    ∙ ap (λ ls. (id_field ++ string ev.id) ∷ ls)
        (ap lines_of (append_assoc event_part data_part s)
          ∙ lines_of-field event_field ev.name (data_part ++ s)
              (refl, (refl, (refl, (refl, (refl, (refl, (refl, tt))))))) h
          ∙ ap (λ ls. (event_field ++ ev.name) ∷ ls)
              (ap lines_of (append_assoc (data_lines (split_lines ev.payload)) (newline ∷ []) s)
                ∙ lines_of-data_lines (split_lines ev.payload) (newline ∷ s)
                    (split_lines-IsLine ev.payload)
                ∙ ap (λ ls. map data_line (split_lines ev.payload) ++ ls) (lines_of-line [] s tt)))
  where
    id_part : Text
    id_part = id_field ++ (string ev.id ++ (newline ∷ []))

    event_part : Text
    event_part = event_field ++ (ev.name ++ (newline ∷ []))

    data_part : Text
    data_part = data_lines (split_lines ev.payload) ++ (newline ∷ [])

-- The data lines add their values.
read_lines-data :
    (lines : List Text) (r : Received) (rest : List Text)
    → read_lines r (map data_line lines ++ ([] ∷ rest))
      ≡ record r { values = r.values ++ map trim_cr lines } ∷ read_lines nothing_yet rest
unfolding read_lines read_field value_of
read_lines-data [] r rest =
    ap (λ vs. record r { values = vs } ∷ read_lines nothing_yet rest) (sym (append-nil r.values))
read_lines-data (line ∷ lines) r rest =
    read_lines-data lines (record r { values = r.values ++ (trim_cr line ∷ []) }) rest
    ∙ ap (λ vs. record r { values = vs } ∷ read_lines nothing_yet rest)
        (append_assoc r.values (trim_cr line ∷ []) (map trim_cr lines))

-- A frame is read as one event.
read_stream-frame :
    (ev : Event) (s : Text)
    → IsLine ev.name
    → read_stream (frame ev ++ s)
      ≡ record { id = string ev.id; name = ev.name; values = map trim_cr (split_lines ev.payload) }
        ∷ read_stream s
unfolding read_stream read_lines read_field value_of
read_stream-frame ev s h =
    ap (read_lines nothing_yet) (lines_of-frame ev s h)
    ∙ read_lines-data (split_lines ev.payload)
        (record { id = string ev.id; name = ev.name; values = [] }) (lines_of s)

understood-event :
    (ev : Event)
    → IsWritable ev
    → understood (record {
      id = string ev.id;
      name = ev.name;
      values = map trim_cr (split_lines ev.payload);
    })
      ≡ carried ev
understood-event ev h =
    ap (λ t. (string ev.id, (ev.name, t))) (join_lines-split_lines ev.payload h.1)

-- Where the name of every event stands on one line, and the payloads have carriage returns at the ends
-- of their lines only, a receiver that reads the frames line by line has, event for event and in
-- order, the text of the id, the name, and the payload without the carriage returns.
pub read_stream-frames :
    (evs : List Event)
    → All IsWritable evs
    → map understood (read_stream (written (map frame evs))) ≡ map carried evs
unfolding read_stream lines_of read_lines
read_stream-frames [] h = refl
read_stream-frames (ev ∷ evs) h =
    ap (map understood) (read_stream-frame ev (written (map frame evs)) h.0.0)
    ∙ ap (λ c. c ∷ map understood (read_stream (written (map frame evs)))) (understood-event ev h.0)
    ∙ ap (λ cs. carried ev ∷ cs) (read_stream-frames evs h.1)
