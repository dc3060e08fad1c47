-- ===== src/Extract/Cover.antt =====
-- Merged ranges overlap what the ranges themselves overlap (internal/extract/extract.go: `mergeSpans` and
-- `inSpans`).
use authstunt.Prelude.{
  ℕ, zero, suc, ◌≤◌, ◌<◌, ◌≡◌, refl, sym, ap, ◌∙◌, inl, inr, Bool, true, false, none, some, List,
  [], ◌∷◌, any, All, length, get_elem?, insert_by, sort_by, Ascending, sort_by-All,
  sort_by-Ascending, ltb, ◌&&◌, ◌||◌, Bool-cases, if_true, if_false, arith, ltb→lt, lt→ltb,
  ltb_false→le,
}
use authstunt.Extract.Spans.{Span, span_before, merge_sorted, merge_spans, ends_after, in_spans}
use authstunt.Extract.Search.{First, IsMonotone, search_index-First}
use authstunt.Extract.Merge.{overlaps, IsRange, begins, Apart, merge_after-Merged}

-- Ranges that all begin behind a range do not overlap it.
none_behind :
    (s : Span) (m : ℕ) (spans : List Span)
    → s.stop ≤ m
    → All (λ t. m < t.start) spans
    → any (overlaps s) spans ≡ false
unfolding any overlaps
none_behind s m [] le h = refl
none_behind s m (t ∷ spans) le h = rw (none_behind s m spans le h.1) (ground (arith, h.0))

ends_after-there :
    (start m j : ℕ) (spans : List Span)
    → start < m
    → Apart spans
    → All (λ t. m < t.start) spans
    → j < length spans
    → ends_after spans start j ≡ true
unfolding ends_after
ends_after-there start m j [] lt h from inside = absurd (omega arith)
ends_after-there start m zero (t ∷ spans) lt h from inside = lt→ltb _ _ (omega (arith, h.0, from.0))
ends_after-there start m (suc j) (t ∷ spans) lt h from inside =
    ends_after-there start m j spans lt h.1.1 from.1 (omega arith)

ends_after-IsMonotone :
    (start : ℕ) (spans : List Span)
    → Apart spans
    → IsMonotone (ends_after spans start) (length spans)
unfolding ends_after
ends_after-IsMonotone start [] h i j le inside e = absurd (omega arith)
ends_after-IsMonotone start (t ∷ spans) h zero zero le inside e = e
ends_after-IsMonotone start (t ∷ spans) h zero (suc j) le inside e =
    ends_after-there start t.stop j spans (ltb→lt _ _ e) h.1.1 h.1.0 (omega arith)
ends_after-IsMonotone start (t ∷ spans) h (suc i) zero le inside e = absurd (omega arith)
ends_after-IsMonotone start (t ∷ spans) h (suc i) (suc j) le inside e =
    ends_after-IsMonotone start spans h.1.1 i j (omega arith) (omega arith) e

hit_test : (a b c : Bool) → b ≡ true → (a ≡ false → c ≡ false) → a ≡ ((a && b) || c)
hit_test true true c e h = refl
hit_test false b c e h = sym (h refl)
hit_test true false c e h = cc

miss_test : (a b c : Bool) → b ≡ false → ((a && b) || c) ≡ c
miss_test true false c e = refl
miss_test false b c e = refl
miss_test true true c e = cc

-- At the first range that ends after the start.
First-overlaps :
    (s : Span) (spans : List Span) (r : ℕ)
    → Apart spans
    → First (ends_after spans s.start) (length spans) r
    → elim (get_elem? spans r) [ none ↦ false | some t ↦ ltb t.start s.stop ]
      ≡ any (overlaps s) spans
unfolding any overlaps ends_after
First-overlaps s [] r h f = refl
First-overlaps s (t ∷ spans) zero h f =
    hit_test (ltb t.start s.stop) (ltb s.start t.stop) (any (overlaps s) spans)
      (f.from_there 0 (omega arith) (omega arith))
      (λ e. none_behind s t.stop spans (omega (arith, ltb_false→le _ _ e, h.0)) h.1.0)
First-overlaps s (t ∷ spans) (suc r) h f =
    First-overlaps s spans r h.1.1 (record {
      inside = omega (arith, f.inside);
      before = λ k lt. f.before (suc k) (omega arith);
      from_there = λ k from inside. f.from_there (suc k) (omega arith) (omega arith);
    })
    ∙ sym (
        miss_test (ltb t.start s.stop) (ltb s.start t.stop) (any (overlaps s) spans)
          (f.before 0 (omega arith)))

-- The order of the tests does not matter.
or_swap : (a b c : Bool) → (a || (b || c)) ≡ (b || (a || c))
or_swap true true c = refl
or_swap true false c = refl
or_swap false b c = refl

any-insert_by :
    {A : Type 0} (p : A → Bool) (before : A → A → Bool) (x : A) (xs : List A)
    → any p (insert_by before x xs) ≡ (p x || any p xs)
unfolding any insert_by
any-insert_by p before x [] = refl
any-insert_by p before x (y ∷ ys) = elim (Bool-cases (before y x)) [
  | inl e ↦
      ap (any p) (if_true (before y x) _ _ e)
      ∙ ap (λ b. p y || b) (any-insert_by p before x ys)
      ∙ or_swap (p y) (p x) (any p ys)
  | inr e ↦ ap (any p) (if_false (before y x) _ _ e)
]

any-sort_by :
    {A : Type 0} (p : A → Bool) (before : A → A → Bool) (xs : List A)
    → any p (sort_by before xs) ≡ any p xs
unfolding any sort_by
any-sort_by p before [] = refl
any-sort_by p before (x ∷ xs) =
    any-insert_by p before x (sort_by before xs) ∙ ap (λ b. p x || b) (any-sort_by p before xs)

before_begins : (a b : Span) → span_before a b ≡ true → a.start ≤ b.start
unfolding span_before
before_begins a b h = ground arith

after_begins : (a b : Span) → span_before a b ≡ false → b.start ≤ a.start
unfolding span_before
after_begins a b h = ground arith

-- The ranges of a list are overlapped as by `spans`.
abbrev Covers : Span → List Span → List Span → Type 0
Covers s spans out = Apart out × (any (overlaps s) out ≡ any (overlaps s) spans)

sorted-Covers :
    (s : Span) (spans : List Span)
    → s.start < s.stop
    → All IsRange spans
    → Ascending begins spans
    → Covers s spans (merge_sorted spans)
unfolding merge_sorted any
sorted-Covers s [] nonempty hs sorted = (tt, refl)
sorted-Covers s (t ∷ spans) nonempty hs sorted =
    let m = merge_after-Merged s nonempty t spans hs.0 hs.1 sorted.0 sorted.1 in (m.apart, m.covers)

merge_spans-Covers :
    (s : Span) (spans : List Span)
    → s.start < s.stop
    → All IsRange spans
    → Covers s spans (merge_spans spans)
unfolding merge_spans
merge_spans-Covers s [] nonempty hs = (tt, refl)
merge_spans-Covers s (t ∷ []) nonempty hs = ((hs.0, (tt, tt)), refl)
merge_spans-Covers s (t ∷ u ∷ spans) nonempty hs =
    let sorted = sort_by span_before (t ∷ u ∷ spans) in
    let c =
      sorted-Covers s sorted nonempty (sort_by-All IsRange span_before (t ∷ u ∷ spans) hs)
        (sort_by-Ascending begins span_before before_begins after_begins (t ∷ u ∷ spans)) in
    (c.0, c.1 ∙ any-sort_by (overlaps s) span_before (t ∷ u ∷ spans))

-- For a range that is not empty, the search by halving in the merged ranges answers whether it overlaps
-- one of the ranges that were merged, which may overlap each other and come in any order.
pub in_spans-overlaps :
    (s : Span) (spans : List Span)
    → s.start < s.stop
    → All IsRange spans
    → in_spans (merge_spans spans) s ≡ any (overlaps s) spans
unfolding in_spans
in_spans-overlaps s spans nonempty hs =
    let c = merge_spans-Covers s spans nonempty hs in
    let merged = merge_spans spans in
    First-overlaps s merged _ c.0 (
      search_index-First (ends_after merged s.start) (length merged)
        (ends_after-IsMonotone s.start merged c.0))
    ∙ c.1
