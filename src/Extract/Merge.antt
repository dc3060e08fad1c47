-- ===== src/Extract/Merge.antt =====
-- What the loop over the sorted ranges makes of the last range and the rest (internal/extract/extract.go:
-- `mergeSpans`).
use authstunt.Prelude.{
  ℕ, ◌≤◌, ◌<◌, ◌≡◌, refl, sym, ap, subst, ◌∙◌, inl, inr, Bool, true, false, List, [], ◌∷◌, any, All,
  Ascending, ltb, leb, ◌&&◌, ◌||◌, if◌then◌else◌, Bool-cases, if_true, if_false, arith, leb→le,
}
use authstunt.Extract.Spans.{Span, merge_after}

-- Two ranges have a byte in common.
unfoldable pub overlaps : Span → Span → Bool
overlaps s t = ltb t.start s.stop && ltb s.start t.stop

abbrev pub IsRange : Span → Type 0
IsRange s = s.start ≤ s.stop

widened : Span → Span → Span
widened last t = if ltb last.stop t.stop then record last { stop = t.stop } else last

wide_test :
    (p q a b x y : ℕ)
    → x < y
    → p ≤ a
    → a ≤ q
    → ltb q b ≡ true
    → (ltb p y && ltb x b) ≡ ((ltb p y && ltb x q) || (ltb a y && ltb x b))
wide_test p q a b x y nonempty order touch e = ground arith

narrow_test :
    (p q a b x y : ℕ)
    → x < y
    → p ≤ a
    → a ≤ q
    → ltb q b ≡ false
    → (ltb p y && ltb x q) ≡ ((ltb p y && ltb x q) || (ltb a y && ltb x b))
narrow_test p q a b x y nonempty order touch e = ground arith

-- A range that begins in the last one, or at its end, is covered once that one is widened.
overlaps-widened :
    (s last t : Span)
    → s.start < s.stop
    → last.start ≤ t.start
    → t.start ≤ last.stop
    → overlaps s (widened last t) ≡ (overlaps s last || overlaps s t)
unfolding overlaps widened
overlaps-widened s last t nonempty order touch = elim (Bool-cases (ltb last.stop t.stop)) [
  | inl e ↦
      ap (overlaps s) (if_true (ltb last.stop t.stop) _ _ e)
      ∙ wide_test last.start last.stop t.start t.stop s.start s.stop nonempty order touch e
  | inr e ↦
      ap (overlaps s) (if_false (ltb last.stop t.stop) _ _ e)
      ∙ narrow_test last.start last.stop t.start t.stop s.start s.stop nonempty order touch e
]

abbrev pub begins : Span → ℕ
begins s = s.start

widened-start : (last t : Span) → (widened last t).start ≡ last.start
unfolding widened
widened-start last t = elim (Bool-cases (ltb last.stop t.stop)) [
  | inl e ↦ ap begins (if_true (ltb last.stop t.stop) _ _ e)
  | inr e ↦ ap begins (if_false (ltb last.stop t.stop) _ _ e)
]

widened-IsRange :
    (last t : Span) → IsRange last → IsRange t → last.start ≤ t.start → IsRange (widened last t)
unfolding widened
widened-IsRange last t h k order = elim (Bool-cases (ltb last.stop t.stop)) [
  | inl e ↦ subst IsRange (sym (if_true (ltb last.stop t.stop) _ _ e)) (omega (arith, order, k))
  | inr e ↦ subst IsRange (sym (if_false (ltb last.stop t.stop) _ _ e)) h
]

or_assoc : (a b c : Bool) → ((a || b) || c) ≡ (a || (b || c))
or_assoc true b c = refl
or_assoc false b c = refl

-- Ranges that neither overlap nor touch, in order.
abbrev pub Apart : List Span → Type 0
Apart [] = Unit {0}
Apart (s ∷ spans) = IsRange s × (All (λ t. s.stop < t.start) spans × Apart spans)

All-from :
    (m n : ℕ) (spans : List Span)
    → m ≤ n
    → All (λ t. n ≤ t.start) spans
    → All (λ t. m ≤ t.start) spans
All-from m n [] le h = tt
All-from m n (s ∷ spans) le h = (omega (arith, le, h.0), All-from m n spans le h.1)

All-after :
    (m n : ℕ) (spans : List Span)
    → m < n
    → All (λ t. n ≤ t.start) spans
    → All (λ t. m < t.start) spans
All-after m n [] lt h = tt
All-after m n (s ∷ spans) lt h = (omega (arith, lt, h.0), All-after m n spans lt h.1)

-- What the loop makes of the last range and the sorted rest.
pub record Merged (s : Span) (last : Span) (spans out : List Span) : Type 0 where
  pub apart : Apart out
  from_last : All (λ t. last.start ≤ t.start) out
  pub covers : any (overlaps s) out ≡ (overlaps s last || any (overlaps s) spans)

module _ (s : Span) (nonempty : s.start < s.stop) where
  touching-Merged :
      (last t : Span) (spans out : List Span)
      → last.start ≤ t.start
      → t.start ≤ last.stop
      → Merged s (widened last t) spans out
      → Merged s last (t ∷ spans) out
  unfolding any
  touching-Merged last t spans out order touch w = record {
    apart = w.apart;
    from_last = subst (λ m. All (λ u. m ≤ u.start) out) (widened-start last t) w.from_last;
    covers =
        w.covers
        ∙ ap (λ b. b || any (overlaps s) spans) (overlaps-widened s last t nonempty order touch)
        ∙ or_assoc (overlaps s last) (overlaps s t) (any (overlaps s) spans);
  }

  apart-Merged :
      (last t : Span) (spans out : List Span)
      → IsRange last
      → last.start ≤ t.start
      → last.stop < t.start
      → Merged s t spans out
      → Merged s last (t ∷ spans) (last ∷ out)
  unfolding any
  apart-Merged last t spans out h order gap r = record {
    apart = (h, (All-after last.stop t.start out gap r.from_last, r.apart));
    from_last = (omega arith, All-from last.start t.start out order r.from_last);
    covers = ap (λ b. overlaps s last || b) r.covers;
  }

  pub merge_after-Merged :
      (last : Span) (spans : List Span)
      → IsRange last
      → All IsRange spans
      → All (λ t. last.start ≤ t.start) spans
      → Ascending begins spans
      → Merged s last spans (merge_after last spans)
  unfolding merge_after any widened
  merge_after-Merged last [] h hs from sorted = record {
    apart = (h, (tt, tt));
    from_last = (omega arith, tt);
    covers = refl;
  }
  merge_after-Merged last (t ∷ spans) h hs from sorted =
      split (merge_after-Merged t spans hs.0 hs.1 sorted.0 sorted.1) (
        merge_after-Merged (widened last t) spans (widened-IsRange last t h hs.0 from.0) hs.1
          (subst (λ m. All (λ u. m ≤ u.start) spans) (sym (widened-start last t)) from.1) sorted.1)
    where
      split :
          Merged s t spans (merge_after t spans)
          → Merged s (widened last t) spans (merge_after (widened last t) spans)
          → Merged s last (t ∷ spans) (merge_after last (t ∷ spans))
      split r w = elim (Bool-cases (leb t.start last.stop)) [
        | inl touch ↦
            subst (Merged s last (t ∷ spans)) (sym (if_true (leb t.start last.stop) _ _ touch))
              (touching-Merged last t spans _ from.0 (leb→le _ _ touch) w)
        | inr gap ↦
            subst (Merged s last (t ∷ spans)) (sym (if_false (leb t.start last.stop) _ _ gap))
              (apart-Merged last t spans _ h from.0 (ground arith) r)
      ]
