-- ===== src/Sse/Hub/Resume.antt =====
-- A client that comes back with the id of its last frame (internal/sse/hub.go: `Serve`).
use authstunt.Prelude.{
  ℕ, ◌≤◌, ◌≡◌, refl, sym, ap, ◌∙◌, inl, inr, Text, Bool, true, false, Bool-cases, if◌then◌else◌,
  Option, none, some, List, [], ◌∷◌, ◌++◌, map, length, drop, ◌||◌, if_true, if_false,
}
use mathlib.Core.List.{append-nil}
use authstunt.Sse.Id.{EventId, is_zero, zero_id, string, cut_dash, parse_event_id, max_int64}
use authstunt.Sse.RoundTrip.{parse_event_id-string}
use authstunt.Sse.Ring.{Event}
use authstunt.Sse.Bus.{Subscription, Bus, open_stream}
use authstunt.Sse.Bus.Streams.{Leaves}
use authstunt.Sse.Bus.Reach.{Reaches}
use authstunt.Sse.Bus.Steps.{continues, Told}
use authstunt.Sse.Bus.Promise.{open_stream-Told}
use authstunt.Sse.Hub.{reset_event, requested, greeting, frame, served, serve_from, serve}

requested-parsed :
    (t : Text) (id : EventId) → parse_event_id t ≡ some id → requested t ≡ (id, false)
unfolding requested parse_event_id cut_dash
requested-parsed [] id e = absurd cc
requested-parsed (c ∷ s) id e =
    ap (λ o. elim o [ none ↦ (zero_id, true) | some parsed ↦ (parsed, false) ]) e

-- The greeting of a stream that was told what it is to be told.
served-continued :
    (generation : ℕ) (log : List Event) (id : EventId) (o : Option Subscription)
    → Leaves (Told generation log id) o
    → is_zero id ≡ false
    → continues generation log id ≡ true
    → elim o [ none ↦ none | some sub ↦ some (served false sub) ]
      ≡ some (map frame (drop id.seq log))
unfolding served greeting
served-continued generation log id none told nz c = elim told [ ]
served-continued generation log id (some sub) told nz c =
    ap (λ evs. some (map frame evs)) (ap (λ evs. evs ++ sub.sent) greeted ∙ all_sent)
  where
    greeted : greeting false sub ≡ drop id.seq log
    greeted =
        if_false (sub.reset || false) _ _ (ap (λ r. r || false) (told.continued nz c).0)
        ∙ (told.continued nz c).1

    all_sent : drop id.seq log ++ sub.sent ≡ drop id.seq log
    all_sent = ap (λ evs. drop id.seq log ++ evs) told.unsent ∙ append-nil (drop id.seq log)

-- What the first of a stream is, from the log: a reset carries the id of the last event.
abbrev pub reset_at : ℕ → List Event → List Event
reset_at generation log = reset_event (record { generation = generation; seq = length log }) ∷ []

-- From an id that was read: nothing for the zero id, the events after the id, or a reset.
unfoldable pub resumed : ℕ → List Event → EventId → List Event
resumed generation log id =
    if is_zero id
    then []
    else if continues generation log id
    then drop id.seq log
    else reset_at generation log

-- From the text of the header, where no text is no id.
unfoldable pub answer : ℕ → List Event → Text → List Event
unfolding parse_event_id resumed
answer generation log [] = []
answer generation log (c ∷ s) = elim (parse_event_id (c ∷ s)) [
  | none ↦ reset_at generation log
  | some id ↦ resumed generation log id
]

module _ (generation : ℕ) (log : List Event) where
  -- A stream for which the bus sets the reset, or whose header could not be read.
  greeting-reset :
      (malformed : Bool) (id : EventId) (sub : Subscription)
      → Told generation log id sub
      → (sub.reset || malformed) ≡ true
      → sub.replay ≡ []
      → served malformed sub ≡ map frame (reset_at generation log)
  unfolding served greeting
  greeting-reset malformed id sub told on nothing = ap (map frame) (
      ap (λ evs. evs ++ sub.sent) (if_true (sub.reset || malformed) _ _ on)
      ∙ ap (λ evs. (reset_event sub.anchor ∷ evs) ++ sub.sent) nothing
      ∙ ap (λ evs. reset_event sub.anchor ∷ evs) told.unsent
      ∙ ap (λ anchor. reset_event anchor ∷ []) told.anchored)

  -- A stream that is told no reset.
  greeting-replay :
      (id : EventId) (sub : Subscription)
      → Told generation log id sub
      → sub.reset ≡ false
      → served false sub ≡ map frame sub.replay
  unfolding served greeting
  greeting-replay id sub told off = ap (map frame) (
      ap (λ evs. evs ++ sub.sent) (if_false (sub.reset || false) _ _ (ap (λ r. r || false) off))
      ∙ ap (λ evs. sub.replay ++ evs) told.unsent
      ∙ append-nil sub.replay)

  served-resumed :
      (id : EventId) (sub : Subscription)
      → Told generation log id sub
      → served false sub ≡ map frame (resumed generation log id)
  unfolding resumed
  served-resumed id sub told = elim (Bool-cases (is_zero id)) [
    | inl z ↦
        greeting-replay id sub told (told.fresh z).0
        ∙ ap (map frame) ((told.fresh z).1 ∙ sym (if_true (is_zero id) _ _ z))
    | inr nz ↦ elim (Bool-cases (continues generation log id)) [
      | inl c ↦
          greeting-replay id sub told (told.continued nz c).0
          ∙ ap (map frame) (
              (told.continued nz c).1
              ∙ sym (if_false (is_zero id) _ _ nz ∙ if_true (continues generation log id) _ _ c))
      | inr c ↦
          greeting-reset false id sub told (ap (λ r. r || false) (told.broken nz c).0)
            (told.broken nz c).1
          ∙ ap (map frame)
              (sym (if_false (is_zero id) _ _ nz ∙ if_false (continues generation log id) _ _ c))
    ]
  ]

  -- The zero id, which stands in for a header that could not be read.
  served-malformed :
      (sub : Subscription)
      → Told generation log zero_id sub
      → served true sub ≡ map frame (reset_at generation log)
  unfolding is_zero
  served-malformed sub told =
      greeting-reset true zero_id sub told (ap (λ r. r || true) (told.fresh refl).0)
        (told.fresh refl).1

  opened :
      (malformed : Bool) (from : EventId) (expected : List Event) (o : Option Subscription)
      → Leaves (Told generation log from) o
      → ((sub : Subscription)
          → Told generation log from sub
          → served malformed sub ≡ map frame expected)
      → elim o [ none ↦ none | some sub ↦ some (served malformed sub) ] ≡ some (map frame expected)
  opened malformed from expected none told h = elim told [ ]
  opened malformed from expected (some sub) told h = ap (λ fs. some fs) (h sub told)

-- Whatever text a client of a reachable bus sends as the id to continue from, what it is written first
-- is determined by the log: nothing for no text or the zero id; the events after the id where it is
-- of this generation and the ring still has them all; and otherwise, also where the text is no id, one
-- reset frame with the id of the last event.
pub serve-answer :
    {generation : ℕ} {log : List Event} {b : Bus} (header : Text)
    → Reaches generation log b
    → serve b header ≡ some (map frame (answer generation log header))
unfolding serve serve_from requested answer is_zero
serve-answer {generation} {log} {b} [] r =
    opened generation log false zero_id [] (open_stream b zero_id) (open_stream-Told zero_id r)
      (λ sub told. served-resumed generation log zero_id sub told)
serve-answer {generation} {log} {b} (c ∷ s) r = split (parse_event_id (c ∷ s))
  where
    split :
        (o : Option EventId)
        → serve_from b (elim o [ none ↦ (zero_id, true) | some parsed ↦ (parsed, false) ])
          ≡ some (
              map frame
                (elim o [ none ↦ reset_at generation log | some id ↦ resumed generation log id ]))
    split none =
        opened generation log true zero_id (reset_at generation log) (open_stream b zero_id)
          (open_stream-Told zero_id r) (λ sub told. served-malformed generation log sub told)
    split (some id) =
        opened generation log false id (resumed generation log id) (open_stream b id)
          (open_stream-Told id r) (λ sub told. served-resumed generation log id sub told)

module _ {generation : ℕ} {log : List Event} {b : Bus} (id : EventId) where
  -- Where an id is well formed and the ring still has every event after it, a client of a reachable bus
  -- that sends it back is written the frames of exactly the events that were published after it.
  pub serve-resumed :
      Reaches generation log b
      → id.generation ≤ max_int64
      → id.seq ≤ max_int64
      → is_zero id ≡ false
      → continues generation log id ≡ true
      → serve b (string id) ≡ some (map frame (drop id.seq log))
  unfolding serve serve_from
  serve-resumed r hg hs nz c =
      ap (serve_from b) (requested-parsed (string id) id (parse_event_id-string id hg hs))
      ∙ served-continued generation log id (open_stream b id) (open_stream-Told id r) nz c
