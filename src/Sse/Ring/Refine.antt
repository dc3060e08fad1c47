-- ===== src/Sse/Ring/Refine.antt =====
-- The ring (internal/sse/ring.go) against the list of all that was published.
use authstunt.Prelude.{
  ℕ, suc, ◌+◌, ◌-◌, ◌%◌, ◌≤◌, ◌<◌, ◌≡◌, refl, sym, ap, ◌∙◌, ◌⊎◌, inl, inr, Option, none, some, List,
  [], ◌∷◌, ◌++◌, length, set, take, drop, min, ltb, ◌==◌, Bool-cases, arith, length-append,
  length-set, ==_iff, drop_congr, drop-nil, drop-drop, drop-append, drop_all, take_all, drop-set,
  take-set, drop-rotated, ltb→lt, lt→ltb, ltb_false→le,
}
use mathlib.Core.List.{append-nil, append_assoc}
use authstunt.Sse.Ring.{Event, Ring, new_ring, add, snapshot}

-- The last events of a log.
unfoldable pub last_events : ℕ → List Event → List Event
last_events size log = drop (length log - size) log

-- Oldest first, the slice holds the last events of the log.
pub record Holds (log : List Event) (r : Ring) : Type 0 where
  pub room : 0 < r.size
  pub filled : length r.events ≡ min r.size (length log)
  pub start : (r.next ≡ 0) ⊎ ((r.next < length r.events) × (length r.events ≡ r.size))
  pub content : drop r.next r.events ++ take r.next r.events ≡ last_events r.size log

snapshot-rotated : (r : Ring) → snapshot r ≡ drop r.next r.events ++ take r.next r.events
unfolding snapshot
snapshot-rotated r = elim (Bool-cases (r.next == 0)) [
  | inl e ↦
      let zero_next : r.next ≡ 0 = (==_iff r.next 0).0 e in
      rw e
        (sym (append-nil r.events) ∙ ap (λ n. drop n r.events ++ take n r.events) (sym zero_next))
  | inr e ↦ rw e refl
]

-- The snapshot is the last events.
pub snapshot-Holds :
    (log : List Event) (r : Ring) → Holds log r → snapshot r ≡ last_events r.size log
snapshot-Holds log r h = snapshot-rotated r ∙ h.content

pub new_ring-Holds : (size : ℕ) → 0 < size → Holds [] (new_ring size)
unfolding new_ring last_events
new_ring-Holds size h = record {
  room = h;
  filled = omega arith;
  start = inl refl;
  content = sym (drop-nil (0 - size));
}

-- What `add` leaves.
abbrev pub Added : List Event → ℕ → Option Ring → Type 0
Added log size none = ⊥
Added log size (some r) = Holds log r × (r.size ≡ size)

last_events-few : (size : ℕ) (log : List Event) → length log ≤ size → last_events size log ≡ log
unfolding last_events
last_events-few size log h = drop_congr _ 0 log (omega arith)

last_events-next :
    (size : ℕ) (log : List Event) (ev : Event)
    → 0 < size
    → size ≤ length log
    → last_events size (log ++ (ev ∷ [])) ≡ drop 1 (last_events size log) ++ (ev ∷ [])
unfolding last_events
last_events-next size log ev p h =
    drop_congr _ _ (log ++ (ev ∷ [])) (omega (arith, length-append log (ev ∷ [])))
    ∙ drop-append (length log - size + 1) log (ev ∷ []) (omega arith)
    ∙ ap (λ xs. xs ++ (ev ∷ [])) (sym (drop-drop 1 (length log - size) log))

-- While there is room the slice is the log.
grow-Holds :
    (log : List Event) (r : Ring) (ev : Event)
    → Holds log r
    → length r.events < r.size
    → Holds (log ++ (ev ∷ [])) (record r { events = r.events ++ (ev ∷ []) })
grow-Holds log r ev h room = record {
  room = h.room;
  filled = omega (arith, length-append r.events (ev ∷ []), length-append log (ev ∷ []), h.filled);
  start = inl zero_next;
  content =
      ap (λ n. drop n (r.events ++ (ev ∷ [])) ++ take n (r.events ++ (ev ∷ []))) zero_next
      ∙ append-nil _
      ∙ ap (λ xs. xs ++ (ev ∷ [])) same
      ∙ sym (
          last_events-few r.size (log ++ (ev ∷ []))
            (omega (arith, length-append log (ev ∷ []), h.filled)));
}
  where
    zero_next : r.next ≡ 0
    zero_next = elim h.start [ inl e ↦ e | inr full ↦ absurd (omega (arith, full.1)) ]

    same : r.events ≡ log
    same =
        sym (append-nil r.events)
        ∙ ap (λ n. drop n r.events ++ take n r.events) (sym zero_next)
        ∙ h.content
        ∙ last_events-few r.size log (omega (arith, h.filled))

mod_below : (n m : ℕ) → n + 1 < m → (n + 1) % m ≡ suc n
mod_below n m h = grind arith

mod_self : (m : ℕ) → 0 < m → m % m ≡ 0
mod_self m h = grind arith

mod_end : (n m : ℕ) → suc n ≡ m → (n + 1) % m ≡ 0
mod_end n m e = let e' : n + 1 ≡ m = omega arith in rw e' (mod_self m (omega arith))

-- One step round a full slice: the oldest goes, the newest comes last.
rotate-set :
    {A : Type 0} (n : ℕ) (xs : List A) (v : A)
    → n < length xs
    → drop ((n + 1) % length xs) (set xs n v) ++ take ((n + 1) % length xs) (set xs n v)
      ≡ drop 1 (drop n xs ++ take n xs) ++ (v ∷ [])
rotate-set n xs v h = elim (Bool-cases (ltb (n + 1) (length xs))) [
  | inl e ↦ rw (mod_below n (length xs) (ltb→lt _ _ e)) stepped
  | inr e ↦
      let last : suc n ≡ length xs = ground arith in
      rw (mod_end n (length xs) last) (wrapped last ∙ stepped)
]
  where
    wrapped :
        suc n ≡ length xs
        → set xs n v ++ [] ≡ drop (suc n) (set xs n v) ++ take (suc n) (set xs n v)
    wrapped e =
        append-nil _
        ∙ sym (
            ap (λ ys. ys ++ take (suc n) (set xs n v))
              (drop_all (suc n) (set xs n v) (omega (arith, length-set xs n v)))
            ∙ take_all (suc n) (set xs n v) (omega (arith, length-set xs n v)))

    stepped :
        drop (suc n) (set xs n v) ++ take (suc n) (set xs n v)
        ≡ drop 1 (drop n xs ++ take n xs) ++ (v ∷ [])
    stepped =
        ap (λ ys. ys ++ take (suc n) (set xs n v)) (drop-set n xs v)
        ∙ ap (λ ys. drop (suc n) xs ++ ys) (take-set n xs v h)
        ∙ sym (append_assoc (drop (suc n) xs) (take n xs) (v ∷ []))
        ∙ ap (λ ys. ys ++ (v ∷ [])) (sym (drop-rotated n xs (take n xs) h))

next-start : (n m : ℕ) → n < m → ((n + 1) % m ≡ 0) ⊎ ((n + 1) % m < m)
next-start n m h = elim (Bool-cases (ltb (n + 1) m)) [
  | inl e ↦ inr (rw (mod_below n m (ltb→lt _ _ e)) (omega (arith, ltb→lt _ _ e)))
  | inr e ↦ inl (mod_end n m (ground arith))
]

-- A full slice.
turn-Holds :
    (log : List Event) (r : Ring) (ev : Event)
    → Holds log r
    → length r.events ≡ r.size
    → r.next < length r.events
    → Holds
        (log ++ (ev ∷ []))
        (record r { events = set r.events r.next ev; next = (r.next + 1) % length r.events })
turn-Holds log r ev h full inside = record {
  room = h.room;
  filled = omega (arith, length-set r.events r.next ev, length-append log (ev ∷ []), h.filled);
  start = elim (next-start r.next (length r.events) inside) [
    | inl e ↦ inl e
    | inr lt ↦
        inr (omega (arith, lt, length-set r.events r.next ev), length-set r.events r.next ev ∙ full)
  ];
  content =
      rotate-set r.next r.events ev inside
      ∙ ap (λ xs. drop 1 xs ++ (ev ∷ [])) h.content
      ∙ sym (last_events-next r.size log ev h.room (omega (arith, h.filled)));
}

-- While a ring holds the last events of a log, adding an event does not panic, and leaves a ring of
-- the same capacity that holds the last events of the longer log.
pub add-Added :
    (log : List Event) (r : Ring) (ev : Event)
    → Holds log r
    → Added (log ++ (ev ∷ [])) r.size (add r ev)
unfolding add
add-Added log r ev h = elim (Bool-cases (ltb (length r.events) r.size)) [
  | inl room ↦ rw room (grow-Holds log r ev h (ltb→lt _ _ room), refl)
  | inr filled ↦
      let full : length r.events ≡ r.size =
        omega (arith, h.filled, h.room, ltb_false→le _ _ filled) in
      let inside : r.next < length r.events = elim h.start [
        | inl e ↦ omega (arith, e, full, h.room)
        | inr both ↦ both.0
      ] in
      rw (filled, lt→ltb _ _ inside) (turn-Holds log r ev h full inside, refl)
]
