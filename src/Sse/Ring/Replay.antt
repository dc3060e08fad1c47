-- ===== src/Sse/Ring/Replay.antt =====
-- The replay of the ring (internal/sse/ring.go: `after`).
use authstunt.Prelude.{
  ℕ, zero, suc, ◌+◌, ◌-◌, ◌≤◌, ◌<◌, ◌≡◌, refl, ap, subst, ◌∙◌, inl, inr, List, [], ◌∷◌, length,
  drop, ltb, ◌==◌, ◌||◌, if◌then◌else◌, Bool-cases, arith, length-drop, drop_congr, drop-drop,
  drop-nil, ltb→lt, ltb_false→le, or_left_false, or_right_false,
}
use authstunt.Sse.Id.{EventId}
use authstunt.Sse.Ring.{Event, Ring, newest, Answer, replayed, gap, slice_last, after_in, after}
use authstunt.Sse.Ring.Refine.{Holds, last_events, snapshot-Holds}

-- The events are numbered from 1 in the order of publication.
abbrev pub Numbered : ℕ → List Event → Type 0
Numbered n [] = Unit {0}
Numbered n (ev ∷ log) = (ev.id.seq ≡ suc n) × Numbered (suc n) log

newest-Numbered :
    (n : ℕ) (ev : Event) (rest : List Event)
    → Numbered n (ev ∷ rest)
    → (newest ev rest).id.seq ≡ n + length (ev ∷ rest)
unfolding newest
newest-Numbered n ev [] h = omega (arith, h.0)
newest-Numbered n ev (next ∷ rest) h = omega (arith, newest-Numbered (suc n) next rest h.1)

drop-Numbered : (k n : ℕ) (log : List Event) → Numbered n log → Numbered (n + k) (drop k log)
drop-Numbered zero n log h = subst (λ m. Numbered m log) (omega arith) h
drop-Numbered (suc k) n [] h = tt
drop-Numbered (suc k) n (ev ∷ log) h =
    subst (λ m. Numbered m (drop k log)) (omega arith) (drop-Numbered k (suc n) log h.1)

-- Of the events numbered from `k + 1`, those after `seq`.
unfoldable missed_in : ℕ → List Event → ℕ → Answer
missed_in k all seq =
    if ltb seq k || ltb (k + length all) seq then gap else replayed (drop (seq - k) all)

slice_last-drop :
    (all : List Event) (n m : ℕ)
    → n ≤ length all
    → length all - n ≡ m
    → slice_last all n ≡ replayed (drop m all)
unfolding slice_last
slice_last-drop all n m h e = elim (Bool-cases (ltb (length all) n)) [
  | inl t ↦ absurd (omega (arith, ltb→lt _ _ t))
  | inr t ↦ rw t (ap replayed (drop_congr _ _ all e))
]

missed_in-cons :
    (k : ℕ) (all : List Event) (seq : ℕ)
    → (if ltb seq k || ltb (k + length all) seq then gap else slice_last all (k + length all - seq))
      ≡ missed_in k all seq
unfolding missed_in
missed_in-cons k all seq = elim (Bool-cases (ltb seq k || ltb (k + length all) seq)) [
  | inl e ↦ rw e refl
  | inr e ↦
      let low : k ≤ seq = ltb_false→le _ _ (or_left_false _ _ e) in
      let high : seq ≤ k + length all = ltb_false→le _ _ (or_right_false (ltb seq k) _ e) in
      rw e (slice_last-drop all _ _ (omega arith) (omega arith))
]

after_in-missed :
    (k : ℕ) (all : List Event) (seq : ℕ)
    → (all ≡ [] → k ≡ 0)
    → Numbered k all
    → after_in all seq ≡ missed_in k all seq
unfolding after_in missed_in
after_in-missed k [] seq first h = empty k (first refl)
  where
    empty : (n : ℕ) → n ≡ 0 → (if seq == 0 then replayed [] else gap) ≡ missed_in n [] seq
    empty n e = rw e (ground (arith, drop-nil {A = Event} (seq - 0)))
after_in-missed k (oldest ∷ rest) seq first h =
    let before : oldest.id.seq - 1 ≡ k = omega (arith, h.0) in
    rw (before, newest-Numbered k oldest rest h) (missed_in-cons k (oldest ∷ rest) seq)

-- Of all that was published, the events after `seq`, or a gap where the ring has lost one of them or
-- none has that number.
unfoldable pub missed : ℕ → List Event → ℕ → Answer
missed size log seq =
    if ltb (length log) seq || ltb (seq + size) (length log) then gap else replayed (drop seq log)

missed_in-last :
    (size : ℕ) (log : List Event) (seq : ℕ)
    → missed_in (length log - size) (last_events size log) seq ≡ missed size log seq
unfolding missed_in missed last_events
missed_in-last size log seq =
    elim (Bool-cases (ltb (length log) seq || ltb (seq + size) (length log))) [
      | inl e ↦ rw (e, tests ∙ e) refl
      | inr e ↦
          let low : length log ≤ seq + size =
            ltb_false→le _ _ (or_right_false (ltb (length log) seq) _ e) in
          rw (e, tests ∙ e)
            (ap replayed (
              drop-drop (seq - (length log - size)) (length log - size) log
              ∙ drop_congr _ _ log (omega arith)))
    ]
  where
    tests :
        (ltb seq (length log - size)
          || ltb (length log - size + length (drop (length log - size) log)) seq)
        ≡ (ltb (length log) seq || ltb (seq + size) (length log))
    tests = ground (arith, length-drop (length log - size) log)

last_events-empty :
    (size : ℕ) (log : List Event) → 0 < size → last_events size log ≡ [] → length log - size ≡ 0
unfolding last_events
last_events-empty size log p e =
    let none_left : length (drop (length log - size) log) ≡ 0 = ap length e in
    omega (arith, none_left, length-drop (length log - size) log)

last_events-Numbered :
    (size : ℕ) (log : List Event)
    → Numbered 0 log
    → Numbered (length log - size) (last_events size log)
unfolding last_events
last_events-Numbered size log h =
    subst (λ m. Numbered m (drop (length log - size) log)) (omega arith)
      (drop-Numbered (length log - size) 0 log h)

-- Where a ring holds the last events of a log that is numbered from 1, the answer to an id is the list
-- of exactly the events published after it, or a gap if the ring has lost one of them or the id is of
-- no event yet; the slice is never taken out of range.
pub after-missed :
    (log : List Event) (r : Ring) (id : EventId)
    → Holds log r
    → Numbered 0 log
    → after r id ≡ missed r.size log id.seq
unfolding after
after-missed log r id h numbered =
    ap (λ all. after_in all id.seq) (snapshot-Holds log r h)
    ∙ after_in-missed (length log - r.size) (last_events r.size log) id.seq
        (last_events-empty r.size log h.room) (last_events-Numbered r.size log numbered)
    ∙ missed_in-last r.size log id.seq
