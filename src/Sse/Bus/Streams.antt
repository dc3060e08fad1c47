-- ===== src/Sse/Bus/Streams.antt =====
-- The streams of the bus (internal/sse/bus.go) against the list of all that was published.
use authstunt.Prelude.{
  ℕ, zero, suc, ◌+◌, ◌-◌, ◌≤◌, ◌<◌, ◌≡◌, refl, sym, ap, subst, ◌∙◌, inl, inr, Bool, true, false,
  Option, none, some, List, [], ◌∷◌, ◌++◌, length, drop, All, ltb, Bool-cases, if_true, if_false,
  arith, length-append, drop-append, ltb→lt,
}
use mathlib.Core.List.{append-nil, append_assoc}
use authstunt.Sse.Ring.{Event}
use authstunt.Sse.Bus.{
  Subscription, deliver_stream, fan_out, each, only, leave_stream, close_stream, receive_event,
}

-- After its replay and what it was sent, a stream lacks only the events `lost`, none while it is
-- registered, of the log from some point on.
pub record Follows (log : List Event) (s : Subscription) : Type 0 where
  pub start : ℕ
  pub lost : List Event
  pub within : start ≤ length log
  pub anchored : s.anchor.seq ≤ length log
  pub live : s.sent ++ lost ≡ drop s.anchor.seq log
  pub whole : s.replay ++ drop s.anchor.seq log ≡ drop start log
  pub complete : s.registered ≡ true → lost ≡ []
  pub is_open : s.registered ≡ true → s.closed ≡ false
  pub bounded : length s.sent ≤ s.received + 64
  pub in_turn : s.received ≤ length s.sent

-- What a step over an option leaves, if it does not panic.
abbrev pub Leaves {ℓ} : {A : Type ℓ} → (A → Type 0) → Option A → Type 0
Leaves P none = ⊥
Leaves P (some x) = P x

pub each-Leaves {ℓ} :
    {A : Type ℓ} (P Q : A → Type 0) (f : A → Option A)
    → ((x : A) → P x → Leaves Q (f x))
    → (xs : List A) → All P xs
    → Leaves (All Q) (each f xs)
unfolding each
each-Leaves P Q f step [] h = tt
each-Leaves {A = A} P Q f step (x ∷ xs) h =
    join (f x) (each f xs) (step x h.0) (each-Leaves P Q f step xs h.1)
  where
    join :
        (a : Option A) (rest : Option (List A))
        → Leaves Q a
        → Leaves (All Q) rest
        → Leaves
            (All Q)
            (elim a [ none ↦ none | some y ↦ elim rest [ none ↦ none | some ys ↦ some (y ∷ ys) ] ])
    join none rest q qs = elim q [ ]
    join (some y) none q qs = elim qs [ ]
    join (some y) (some ys) q qs = (q, qs)

-- One more event is published.
grown :
    (log : List Event) (ev : Event) (n : ℕ) (xs : List Event)
    → n ≤ length log
    → xs ≡ drop n log
    → xs ++ (ev ∷ []) ≡ drop n (log ++ (ev ∷ []))
grown log ev n xs h e = ap (λ ys. ys ++ (ev ∷ [])) e ∙ sym (drop-append n log (ev ∷ []) h)

longer : (log : List Event) (ev : Event) (n : ℕ) → n ≤ length log → n ≤ length (log ++ (ev ∷ []))
longer log ev n h = omega (arith, length-append log (ev ∷ []))

whole_grown :
    (log : List Event) (ev : Event) (s : Subscription) (h : Follows log s)
    → s.replay ++ drop s.anchor.seq (log ++ (ev ∷ [])) ≡ drop h.start (log ++ (ev ∷ []))
whole_grown log ev s h =
    ap (λ ys. s.replay ++ ys) (drop-append s.anchor.seq log (ev ∷ []) h.anchored)
    ∙ sym (append_assoc s.replay (drop s.anchor.seq log) (ev ∷ []))
    ∙ grown log ev h.start _ h.within h.whole

-- The event is lost to a stream that is no longer registered.
missed-Follows :
    (log : List Event) (ev : Event) (s : Subscription)
    → Follows log s
    → s.registered ≡ false
    → Follows (log ++ (ev ∷ [])) s
missed-Follows log ev s h off = record {
  start = h.start;
  lost = h.lost ++ (ev ∷ []);
  within = longer log ev h.start h.within;
  anchored = longer log ev s.anchor.seq h.anchored;
  live = sym (append_assoc s.sent h.lost (ev ∷ [])) ∙ grown log ev s.anchor.seq _ h.anchored h.live;
  whole = whole_grown log ev s h;
  complete = λ on. absurd (clash on);
  is_open = λ on. absurd (clash on);
  bounded = h.bounded;
  in_turn = h.in_turn;
}
  where
    clash : s.registered ≡ true → ⊥
    clash on = cc

sent-Follows :
    (log : List Event) (ev : Event) (s : Subscription)
    → Follows log s
    → s.registered ≡ true
    → length s.sent - s.received < 64
    → Follows (log ++ (ev ∷ [])) (record s { sent = s.sent ++ (ev ∷ []) })
sent-Follows log ev s h on room = record {
  start = h.start;
  lost = [];
  within = longer log ev h.start h.within;
  anchored = longer log ev s.anchor.seq h.anchored;
  live = append-nil _ ∙ grown log ev s.anchor.seq s.sent h.anchored all_sent;
  whole = whole_grown log ev s h;
  complete = λ on. refl;
  is_open = h.is_open;
  bounded = omega (arith, length-append s.sent (ev ∷ []));
  in_turn = omega (arith, length-append s.sent (ev ∷ []), h.in_turn);
}
  where
    all_sent : s.sent ≡ drop s.anchor.seq log
    all_sent = sym (append-nil s.sent) ∙ ap (λ l. s.sent ++ l) (sym (h.complete on)) ∙ h.live

-- A stream that is no longer registered, whether it was evicted or left.
gone-Follows :
    (log : List Event) (s : Subscription) (evicted : Bool)
    → Follows log s
    → Follows log (record s { evicted = evicted; closed = true; registered = false })
gone-Follows log s evicted h = record {
  start = h.start;
  lost = h.lost;
  within = h.within;
  anchored = h.anchored;
  live = h.live;
  whole = h.whole;
  complete = λ on. absurd (off_on on);
  is_open = λ on. absurd (off_on on);
  bounded = h.bounded;
  in_turn = h.in_turn;
}
  where
    off_on : false ≡ true → ⊥
    off_on e = cc

pub fan_out-Follows :
    (log : List Event) (ev : Event) (s : Subscription)
    → Follows log s
    → Leaves (Follows (log ++ (ev ∷ []))) (fan_out ev s)
unfolding fan_out deliver_stream
fan_out-Follows log ev s h = elim (Bool-cases s.registered) [
  | inr off ↦ leaves (if_false s.registered _ _ off) (missed-Follows log ev s h off)
  | inl on ↦
      let open_one = if_true s.registered _ _ on ∙ if_false s.closed _ _ (h.is_open on) in
      elim (Bool-cases (ltb (length s.sent - s.received) 64)) [
        | inl room ↦
            leaves (open_one ∙ if_true _ _ _ room) (sent-Follows log ev s h on (ltb→lt _ _ room))
        | inr full ↦
            leaves (open_one ∙ if_false _ _ _ full)
              (missed-Follows log ev _ (gone-Follows log s true h) refl)
      ]
]
  where
    leaves :
        {t : Subscription}
        → fan_out ev s ≡ some t
        → Follows (log ++ (ev ∷ [])) t
        → Leaves (Follows (log ++ (ev ∷ []))) (fan_out ev s)
    leaves e f = subst (Leaves (Follows (log ++ (ev ∷ [])))) (sym e) f

pub leave_stream-Follows :
    (log : List Event) (s : Subscription) → Follows log s → Leaves (Follows log) (leave_stream s)
unfolding leave_stream close_stream
leave_stream-Follows log s h = elim (Bool-cases s.registered) [
  | inr off ↦ leaves (if_false s.registered _ _ off) h
  | inl on ↦
      leaves (if_true s.registered _ _ on ∙ if_false s.closed _ _ (h.is_open on))
        (gone-Follows log s s.evicted h)
]
  where
    leaves :
        {t : Subscription}
        → leave_stream s ≡ some t
        → Follows log t
        → Leaves (Follows log) (leave_stream s)
    leaves e f = subst (Leaves (Follows log)) (sym e) f

pub receive_event-Follows :
    (log : List Event) (s : Subscription) → Follows log s → Leaves (Follows log) (receive_event s)
unfolding receive_event
receive_event-Follows log s h = elim (Bool-cases (ltb s.received (length s.sent))) [
  | inr e ↦ rw e h
  | inl e ↦ rw e (record {
    start = h.start;
    lost = h.lost;
    within = h.within;
    anchored = h.anchored;
    live = h.live;
    whole = h.whole;
    complete = h.complete;
    is_open = h.is_open;
    bounded = omega (arith, h.bounded);
    in_turn = omega (arith, ltb→lt _ _ e);
  })
]

pub only-Leaves {ℓ} :
    {A : Type ℓ} (P : A → Type 0) (f : A → Option A)
    → ((x : A) → P x → Leaves P (f x))
    → (i : ℕ) (xs : List A) → All P xs
    → Leaves (All P) (only f i xs)
unfolding only
only-Leaves P f step i [] h = tt
only-Leaves {A = A} P f step zero (x ∷ xs) h = first (f x) (step x h.0)
  where
    first :
        (a : Option A)
        → Leaves P a
        → Leaves (All P) (elim a [ none ↦ none | some y ↦ some (y ∷ xs) ])
    first none q = elim q [ ]
    first (some y) q = (q, h.1)
only-Leaves {A = A} P f step (suc i) (x ∷ xs) h = rest (only f i xs) (only-Leaves P f step i xs h.1)
  where
    rest :
        (o : Option (List A))
        → Leaves (All P) o
        → Leaves (All P) (elim o [ none ↦ none | some ys ↦ some (x ∷ ys) ])
    rest none q = elim q [ ]
    rest (some ys) q = (h.0, q)
