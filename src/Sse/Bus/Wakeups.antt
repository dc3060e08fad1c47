-- ===== src/Sse/Bus/Wakeups.antt =====
-- A waiter (internal/sse/waiters.go) that does not look is still woken.
use authstunt.Prelude.{
  ℕ, zero, suc, ◌+◌, ◌≡◌, refl, sym, ap, subst, ◌∙◌, inl, inr, Bool, true, false, Option, none,
  some, List, [], ◌∷◌, ◌++◌, All, get_elem?, find, if◌then◌else◌, Bool-cases, if_true, if_false,
}
use authstunt.Sse.Ring.{Event, Ring, add}
use authstunt.Sse.Bus.{
  Publication, Subscription, Waiter, Bus, stamp, publish, wake, deliver_hint, fan_out, each,
}
use authstunt.Sse.Bus.Streams.{Leaves}
use authstunt.Sse.Bus.Reach.{Reaches, published, IsOpen, Running}
use authstunt.Sse.Bus.Promise.{Reaches-Running}
use authstunt.Sse.Bus.Steps.{publish-Running}

-- Publications one after another.
unfoldable pub publish_all : Bus → List Publication → Option Bus
publish_all b [] = some b
publish_all b (p ∷ ps) = elim (publish b p) [ none ↦ none | some next ↦ publish_all next ps ]

unfoldable pub stamps : Bus → List Publication → List Event
stamps b [] = []
stamps b (p ∷ ps) = stamp b p ∷ stamps (record b { seq = b.seq + 1 }) ps

-- The hint in the buffer, or the first event that matches.
unfoldable pub heard : (Event → Bool) → Option Event → List Event → Option Event
unfolding find
heard match (some first) evs = some first
heard match none evs = find match evs

unfoldable hear : Event → Waiter → Waiter
hear ev w = record w { buffer = heard w.match w.buffer (ev ∷ []) }

heard-heard :
    (match : Event → Bool) (o : Option Event) (ev : Event) (evs : List Event)
    → heard match (heard match o (ev ∷ [])) evs ≡ heard match o (ev ∷ evs)
unfolding heard find
heard-heard match (some first) ev evs = refl
heard-heard match none ev evs = elim (Bool-cases (match ev)) [
  | inl e ↦ rw e refl
  | inr e ↦ rw e refl
]

-- The hint is there, whether it was or is put there.
deliver_hint-hear :
    (ev : Event) (w : Waiter)
    → w.closed ≡ false
    → w.match ev ≡ true
    → deliver_hint ev w ≡ some (hear ev w)
unfolding deliver_hint hear heard find
deliver_hint-hear ev w open_one e = if_false w.closed _ _ open_one ∙ filled w.buffer refl
  where
    filled :
        (o : Option Event)
        → w.buffer ≡ o
        → elim o [ none ↦ some (record w { buffer = some ev }) | some first ↦ some w ]
          ≡ some (record w { buffer = heard w.match o (ev ∷ []) })
    filled none at = ap (λ b. some (record w { buffer = if b then some ev else none })) (sym e)
    filled (some first) at = ap (λ o. some (record w { buffer = o })) at

-- An event that does not match changes nothing.
hear_unmatched : (ev : Event) (w : Waiter) → w.match ev ≡ false → w ≡ hear ev w
unfolding hear heard find
hear_unmatched ev w e = ap (λ o. record w { buffer = o }) (sym (kept w.buffer))
  where
    kept : (o : Option Event) → heard w.match o (ev ∷ []) ≡ o
    kept none = if_false (w.match ev) _ _ e
    kept (some first) = refl

wake-hear :
    (ev : Event) (w : Waiter)
    → w.registered ≡ true
    → w.closed ≡ false
    → wake ev w ≡ some (hear ev w)
unfolding wake
wake-hear ev w on open_one = if_true w.registered _ _ on ∙ elim (Bool-cases (w.match ev)) [
  | inl e ↦ if_true (w.match ev) _ _ e ∙ deliver_hint-hear ev w open_one e
  | inr e ↦ if_false (w.match ev) _ _ e ∙ ap some (hear_unmatched ev w e)
]

-- One more element, in front of those of a loop that has run.
get-cons :
    {A : Type 0} (f : A → Option A) (z z' : A) (xs zs : List A) (i : ℕ) (x y : A)
    → f z ≡ some z'
    → f x ≡ some y
    → ((j : ℕ) → get_elem? xs j ≡ some x → get_elem? zs j ≡ some y)
    → get_elem? (z ∷ xs) i ≡ some x
    → get_elem? (z' ∷ zs) i ≡ some y
get-cons f z z' xs zs zero x y fz e ih at = let same : z ≡ x = cc in sym fz ∙ ap f same ∙ e
get-cons f z z' xs zs (suc i) x y fz e ih at = ih i at

each-get :
    {A : Type 0} (f : A → Option A) (x y : A)
    → f x ≡ some y
    → (xs ys : List A) → each f xs ≡ some ys
    → (i : ℕ) → get_elem? xs i ≡ some x
    → get_elem? ys i ≡ some y
unfolding each
each-get f x y e [] ys all i at = absurd cc
each-get {A = A} f x y e (z ∷ xs) ys all i at =
    join (f z) refl (each f xs) (λ zs er. each-get f x y e xs zs er) all
  where
    join :
        (a : Option A)
        → f z ≡ a
        → (rest : Option (List A))
        → ((zs : List A)
            → rest ≡ some zs
            → (j : ℕ) → get_elem? xs j ≡ some x
            → get_elem? zs j ≡ some y)
        → elim a [ none ↦ none | some v ↦ elim rest [ none ↦ none | some vs ↦ some (v ∷ vs) ] ]
          ≡ some ys
        → get_elem? ys i ≡ some y
    join none fz rest ih q = absurd cc
    join (some z') fz none ih q = absurd cc
    join (some z') fz (some zs) ih q =
        let same : z' ∷ zs ≡ ys = cc in
        subst (λ l. get_elem? l i ≡ some y) same (get-cons f z z' xs zs i x y fz e (ih zs refl) at)

get-All :
    {A : Type 0} (P : A → Type 0) (xs : List A) (i : ℕ) (x : A)
    → All P xs
    → get_elem? xs i ≡ some x
    → P x
get-All P [] i x h at = absurd cc
get-All P (z ∷ xs) zero x h at = let same : z ≡ x = cc in subst P same h.0
get-All P (z ∷ xs) (suc i) x h at = get-All P xs i x h.1 at

-- What one publication does, seen from one waiter.
record After (b : Bus) (ev : Event) (i : ℕ) (w : Waiter) (next : Bus) : Type 0 where
  same_bus : next.generation ≡ b.generation
  counted : next.seq ≡ b.seq + 1
  heard_it : get_elem? next.waiters i ≡ some (hear ev w)

publish-After :
    (b next : Bus) (p : Publication) (i : ℕ) (w : Waiter)
    → get_elem? b.waiters i ≡ some w
    → w.registered ≡ true
    → w.closed ≡ false
    → publish b p ≡ some next
    → After b (stamp b p) i w next
unfolding publish
publish-After b next p i w at on open_one e =
    join (add b.replay (stamp b p)) (each (wake (stamp b p)) b.waiters) refl
      (each (fan_out (stamp b p)) b.subscribers) e
  where
    join :
        (r : Option Ring) (ws : Option (List Waiter))
        → each (wake (stamp b p)) b.waiters ≡ ws
        → (ss : Option (List Subscription))
        → elim r [
          | none ↦ none
          | some replay ↦ elim ws [
            | none ↦ none
            | some waiters ↦ elim ss [
              | none ↦ none
              | some subscribers ↦ some (record b {
                seq = b.seq + 1;
                replay = replay;
                subscribers = subscribers;
                waiters = waiters;
              })
            ]
          ]
        ]
          ≡ some next
        → After b (stamp b p) i w next
    join none ws ew ss q = absurd cc
    join (some r) none ew ss q = absurd cc
    join (some r) (some ws) ew none q = absurd cc
    join (some r) (some ws) ew (some ss) q =
        let same : record b { seq = b.seq + 1; replay = r; subscribers = ss; waiters = ws } ≡ next =
          cc in
        subst (After b (stamp b p) i w) same (record {
          same_bus = refl;
          counted = refl;
          heard_it =
              each-get (wake (stamp b p)) w (hear (stamp b p) w)
                (wake-hear (stamp b p) w on open_one) b.waiters ws ew i at;
        })

stamp_congr :
    (b c : Bus) (p : Publication)
    → b.generation ≡ c.generation
    → b.seq ≡ c.seq
    → stamp b p ≡ stamp c p
unfolding stamp
stamp_congr b c p eg es = rw (eg, es) refl

stamps_congr :
    (b c : Bus) (ps : List Publication)
    → b.generation ≡ c.generation
    → b.seq ≡ c.seq
    → stamps b ps ≡ stamps c ps
unfolding stamps
stamps_congr b c [] eg es = refl
stamps_congr b c (p ∷ ps) eg es =
    ap (◌∷◌ (stamp b p)) (
      stamps_congr (record b { seq = b.seq + 1 }) (record c { seq = c.seq + 1 }) ps eg
        (ap (λ n. n + 1) es))
    ∙ ap (λ ev. ev ∷ stamps (record c { seq = c.seq + 1 }) ps) (stamp_congr b c p eg es)

heard-nil : (match : Event → Bool) (o : Option Event) → heard match o [] ≡ o
unfolding heard find
heard-nil match none = refl
heard-nil match (some first) = refl

hear-stamps :
    (b next : Bus) (p : Publication) (ps : List Publication) (i : ℕ) (w : Waiter)
    → After b (stamp b p) i w next
    → heard w.match (hear (stamp b p) w).buffer (stamps next ps)
      ≡ heard w.match w.buffer (stamp b p ∷ stamps (record b { seq = b.seq + 1 }) ps)
unfolding hear
hear-stamps b next p ps i w a =
    heard-heard w.match w.buffer (stamp b p) (stamps next ps)
    ∙ ap (λ evs. heard w.match w.buffer (stamp b p ∷ evs))
        (stamps_congr next (record b { seq = b.seq + 1 }) ps a.same_bus a.counted)

-- Where events are published, however many, while a registered waiter does not look, none panics, and its
-- buffer then holds the hint that it held, or else the first event that matches, if one does.
pub publish_all-heard :
    {generation : ℕ} (ps : List Publication) (i : ℕ) {log : List Event} {b : Bus} (w : Waiter)
    → Reaches generation log b
    → get_elem? b.waiters i ≡ some w
    → w.registered ≡ true
    → Leaves
        (λ next.
          get_elem? next.waiters i
          ≡ some (record w { buffer = heard w.match w.buffer (stamps b ps) }))
        (publish_all b ps)
unfolding publish_all stamps hear
publish_all-heard [] i w r at on =
    at ∙ ap (λ o. some (record w { buffer = o })) (sym (heard-nil w.match w.buffer))
publish_all-heard {generation} (p ∷ ps) i {log} {b} w r at on =
    join (publish b p) refl (publish-Running generation log b p (Reaches-Running r))
      (λ next e a. publish_all-heard ps i (hear (stamp b p) w) (published p r e) a.heard_it on)
  where
    open_one : w.closed ≡ false
    open_one = get-All IsOpen b.waiters i w (Reaches-Running r).waiting at on

    join :
        (o : Option Bus)
        → publish b p ≡ o
        → Leaves (Running generation (log ++ (stamp b p ∷ []))) o
        → ((next : Bus)
            → publish b p ≡ some next
            → After b (stamp b p) i w next
            → Leaves
                (λ last.
                  get_elem? last.waiters i
                  ≡ some (record w {
                    buffer = heard w.match (hear (stamp b p) w).buffer (stamps next ps);
                  }))
                (publish_all next ps))
        → Leaves
            (λ last.
              get_elem? last.waiters i
              ≡ some (record w {
                buffer =
                    heard w.match w.buffer (stamp b p ∷ stamps (record b { seq = b.seq + 1 }) ps);
              }))
            (elim o [ none ↦ none | some next ↦ publish_all next ps ])
    join none e q rec = elim q [ ]
    join (some next) e q rec =
        let a : After b (stamp b p) i w next = publish-After b next p i w at on open_one e in
        subst
          (λ hint.
            Leaves (λ last. get_elem? last.waiters i ≡ some (record w { buffer = hint }))
              (publish_all next ps))
          (hear-stamps b next p ps i w a) (rec next e a)
