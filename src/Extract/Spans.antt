-- ===== src/Extract/Spans.antt =====
-- internal/extract/extract.go: ranges of bytes, merged so that a test can search by halving.
use authstunt.Prelude.{
  ℕ, zero, suc, ◌+◌, ◌/◌, Bool, false, none, some, List, [], ◌∷◌, length, get_elem?, sort_by, ltb,
  leb, ◌==◌, ◌&&◌, ◌||◌, if◌then◌else◌,
}

-- From `start` up to but not including `stop`.
pub record Span : Type 0 where
  pub start : ℕ
  pub stop : ℕ

unfoldable pub span_before : Span → Span → Bool
span_before a b = ltb a.start b.start || (a.start == b.start && ltb a.stop b.stop)

-- The loop of `mergeSpans`, with the last span of what it has.
unfoldable pub merge_after : Span → List Span → List Span
merge_after last [] = last ∷ []
merge_after last (s ∷ spans) =
    if leb s.start last.stop
    then merge_after (if ltb last.stop s.stop then record last { stop = s.stop } else last) spans
    else last ∷ merge_after s spans

unfoldable pub merge_sorted : List Span → List Span
unfolding merge_after
merge_sorted [] = []
merge_sorted (s ∷ spans) = merge_after s spans

unfoldable pub merge_spans : List Span → List Span
unfolding merge_sorted sort_by span_before
merge_spans [] = []
merge_spans (s ∷ []) = s ∷ []
merge_spans (s ∷ t ∷ spans) = merge_sorted (sort_by span_before (s ∷ t ∷ spans))

-- The loop of `sort.Search` between `i` and `j`, by halving.
unfoldable pub search_between : ℕ → (ℕ → Bool) → ℕ → ℕ → ℕ
search_between zero f i j = i
search_between (suc fuel) f i j =
    let h = (i + j) / 2 in
    let upper = search_between fuel f (h + 1) j in
    let lower = search_between fuel f i h in if ltb i j then (if f h then lower else upper) else i

-- A range of `n` is empty after `n` rounds.
unfoldable pub search_index : ℕ → (ℕ → Bool) → ℕ
unfolding search_between
search_index n f = search_between n f 0 n

unfoldable pub ends_after : List Span → ℕ → ℕ → Bool
ends_after sorted start i = elim (get_elem? sorted i) [ none ↦ false | some s ↦ ltb start s.stop ]

unfoldable pub in_spans : List Span → Span → Bool
unfolding search_index ends_after
in_spans sorted s =
    let i = search_index (length sorted) (ends_after sorted s.start) in
    elim (get_elem? sorted i) [ none ↦ false | some t ↦ ltb t.start s.stop ]
