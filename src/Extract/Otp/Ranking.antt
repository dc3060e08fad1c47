-- ===== src/Extract/Otp/Ranking.antt =====
-- What the candidates of internal/extract/otp.go are, and the best of them.
use authstunt.Prelude.{
  ℕ, suc, ◌-◌, ◌≤◌, ◌<◌, ◌≡◌, refl, sym, ◌∙◌, ◌⊎◌, inl, inr, Text, true, false, Option, none, some,
  List, [], ◌∷◌, length, get_elem?, drop, any, All, sort_by, sort_by-All, Ascending,
  sort_by-Ascending, ltb, Bool-cases, arith, ltb→lt, ltb_false→le, text_eq, length-take,
}
use authstunt.Extract.Spans.{Span, merge_spans, search_index, in_spans}
use authstunt.Extract.Merge.{IsRange, overlaps}
use authstunt.Extract.Cover.{in_spans-overlaps}
use authstunt.Extract.Otp.{
  Runes, Candidate, Near, near_points, points, length_points, total, look, unseen, reaches_from,
  score_candidate, code_at, find_candidates, ranked_before, distinct_codes, begins_before,
  digit_runs, longest_word, find_words, otp_candidates, choose, no_score,
}

near_points_bound : (o : Option ℕ) → near_points o ≤ 100
unfolding near_points
near_points_bound none = omega arith
near_points_bound (some d) = ground arith

points_bound : (n : Near) → points n ≤ 115
unfolding points
points_bound n = elim (Bool-cases n.leading) [
  | inl e ↦ rw e (omega (arith, near_points_bound n.nearest))
  | inr e ↦ rw e (omega (arith, near_points_bound n.nearest))
]

length_points_bound : (n : ℕ) → length_points n ≤ 10
unfolding length_points
length_points_bound n = ground arith

total_bound : (code : Text) (n : Near) → total code n ≤ 245
unfolding total
total_bound code n = omega (arith, points_bound n, length_points_bound (length code))

score_candidate_bound :
    (longest : ℕ) (code : Text) (digits : Span) (words : List Span)
    → score_candidate longest code digits words ≤ 245
unfolding score_candidate
score_candidate_bound longest code digits words = total_bound code (
    look digits unseen
      (drop (search_index (length words) (reaches_from longest digits words)) words))

-- A run of four to eight bytes of the text, clear of the excluded ranges.
abbrev pub Standing : Text → List Span → Candidate → Type 0
Standing folded exclude c =
    (digits : Span) × (c.code ≡ code_at folded digits)
    × (c.pos ≡ digits.start)
    × (4 ≤ length c.code)
    × (length c.code ≤ 8)
    × (any (overlaps digits) exclude ≡ false)
    × (c.score ≤ 245)

code_at-IsRange :
    (folded : Text) (digits : Span)
    → 4 ≤ length (code_at folded digits)
    → digits.start < digits.stop
unfolding code_at
code_at-IsRange folded digits h =
    omega (arith, h, length-take (digits.stop - digits.start) (drop digits.start folded))

find_candidates-Standing :
    (longest : ℕ) (folded : Text) (words exclude runs : List Span)
    → All IsRange exclude
    → All
        (Standing folded exclude)
        (find_candidates longest folded words (merge_spans exclude) runs)
unfolding find_candidates
find_candidates-Standing longest folded words exclude [] h = tt
find_candidates-Standing longest folded words exclude (digits ∷ runs) h =
    split (find_candidates-Standing longest folded words exclude runs h)
  where
    split :
        All
          (Standing folded exclude)
          (find_candidates longest folded words (merge_spans exclude) runs)
        → All
            (Standing folded exclude)
            (find_candidates longest folded words (merge_spans exclude) (digits ∷ runs))
    split rest = elim (Bool-cases (ltb (length (code_at folded digits)) 4)) [
      | inl e ↦ rw e rest
      | inr long ↦ elim (Bool-cases (ltb 8 (length (code_at folded digits)))) [
        | inl e ↦ rw (long, e) rest
        | inr short ↦ elim (Bool-cases (in_spans (merge_spans exclude) digits)) [
          | inl e ↦ rw (long, short, e) rest
          | inr clear ↦
              let four : 4 ≤ length (code_at folded digits) = ltb_false→le _ _ long in
              rw (long, short, clear)
                (
                  (
                    digits,
                    refl,
                    refl,
                    four,
                    ltb_false→le _ _ short,
                    sym (in_spans-overlaps digits exclude (code_at-IsRange folded digits four) h)
                        ∙ clear,
                    score_candidate_bound longest (code_at folded digits) digits words,
                  ),
                  rest,
                )
        ]
      ]
    ]

module _ (P : Candidate → Type 0) where
  distinct_codes-All :
      (seen : List Text) (cs : List Candidate) → All P cs → All P (distinct_codes seen cs)
  unfolding distinct_codes
  distinct_codes-All seen [] h = tt
  distinct_codes-All seen (c ∷ cs) h = elim (Bool-cases (any (text_eq c.code) seen)) [
    | inl e ↦ rw e (distinct_codes-All seen cs h.1)
    | inr e ↦ rw e (h.0, distinct_codes-All (c.code ∷ seen) cs h.1)
  ]

-- How far a score is below the highest that there can be.
abbrev shortfall : Candidate → ℕ
shortfall c = 245 - c.score

distinct_codes-Ascending :
    (seen : List Text) (cs : List Candidate)
    → Ascending shortfall cs
    → Ascending shortfall (distinct_codes seen cs)
unfolding distinct_codes
distinct_codes-Ascending seen [] h = tt
distinct_codes-Ascending seen (c ∷ cs) h = elim (Bool-cases (any (text_eq c.code) seen)) [
  | inl e ↦ rw e (distinct_codes-Ascending seen cs h.1)
  | inr e ↦ rw e (
    distinct_codes-All (λ d. shortfall c ≤ shortfall d) (c.code ∷ seen) cs h.0,
    distinct_codes-Ascending (c.code ∷ seen) cs h.1,
  )
]

-- No code is there twice, nor among those seen.
abbrev pub Unrepeated : List Text → List Candidate → Type 0
Unrepeated seen [] = Unit {0}
Unrepeated seen (c ∷ cs) = (any (text_eq c.code) seen ≡ false) × Unrepeated (c.code ∷ seen) cs

distinct_codes-Unrepeated :
    (seen : List Text) (cs : List Candidate) → Unrepeated seen (distinct_codes seen cs)
unfolding distinct_codes
distinct_codes-Unrepeated seen [] = tt
distinct_codes-Unrepeated seen (c ∷ cs) = elim (Bool-cases (any (text_eq c.code) seen)) [
  | inl e ↦ rw e (distinct_codes-Unrepeated seen cs)
  | inr e ↦ rw e (e, distinct_codes-Unrepeated (c.code ∷ seen) cs)
]

ranked_shortfall : (a b : Candidate) → ranked_before a b ≡ true → shortfall a ≤ shortfall b
unfolding ranked_before
ranked_shortfall a b h = ground arith

unranked_shortfall : (a b : Candidate) → ranked_before a b ≡ false → shortfall b ≤ shortfall a
unfolding ranked_before
unranked_shortfall a b h = ground arith

-- The best is the first of the highest scores above none, and there is none where no score is.
abbrev pub Best : List Candidate → Text → Type 0
Best cs best =
    ((best ≡ []) × All (λ c. c.score ≤ no_score) cs)
    ⊎ ((i : ℕ) × (c : Candidate) × (get_elem? cs i ≡ some c)
        × (best ≡ c.code)
        × (no_score < c.score)
        × All (λ d. d.score ≤ c.score) cs)

choose-kept : (c : ℕ) (best : Text) (cs : List Candidate) → choose (c ∷ best) cs ≡ c ∷ best
unfolding choose
choose-kept c best [] = refl
choose-kept c best (d ∷ cs) = choose-kept c best cs

-- The best of one more candidate that is not above none.
Best-cons :
    (c : Candidate) (cs : List Candidate) (best : Text)
    → c.score ≤ 120
    → Best cs best
    → Best (c ∷ cs) best
Best-cons c cs best low (inl h) = inl (h.0, (low, h.1))
Best-cons c cs best low (inr (i, d, at, e, high, all)) =
    inr (suc i, d, at, e, high, (omega (arith, low, high), all))

lower_scores :
    (c : Candidate) (cs : List Candidate)
    → c.score ≤ 245
    → All (λ d. d.score ≤ 245) cs
    → All (λ d. shortfall c ≤ shortfall d) cs
    → All (λ d. d.score ≤ c.score) cs
lower_scores c [] h hs le = tt
lower_scores c (d ∷ cs) h hs le = (omega (arith, h, hs.0, le.0), lower_scores c cs h hs.1 le.1)

choose-Best :
    (cs : List Candidate)
    → All (λ c. (c.score ≤ 245) × (4 ≤ length c.code)) cs
    → Ascending shortfall cs
    → Best cs (choose [] cs)
unfolding choose
choose-Best [] h sorted = inl (refl, tt)
choose-Best (c ∷ cs) h sorted = split (choose-Best cs h.1 sorted.1)
  where
    scores :
        (ds : List Candidate)
        → All (λ d. (d.score ≤ 245) × (4 ≤ length d.code)) ds
        → All (λ d. d.score ≤ 245) ds
    scores [] k = tt
    scores (d ∷ ds) k = (k.0.0, scores ds k.1)

    chosen : (t : Text) → 4 ≤ length t → choose t cs ≡ t
    chosen [] k = absurd (omega arith)
    chosen (b ∷ t) k = choose-kept b t cs

    split : Best cs (choose [] cs) → Best (c ∷ cs) (choose [] (c ∷ cs))
    split rest = elim (Bool-cases (ltb 120 c.score)) [
      | inr low ↦ rw low (Best-cons c cs _ (ltb_false→le _ _ low) rest)
      | inl high ↦ rw high (
          inr (
            0,
            c,
            refl,
            chosen c.code h.0.1,
            ltb→lt _ _ high,
            (omega arith, lower_scores c cs h.0.0 (scores cs h.1) sorted.0),
          ))
    ]

-- What stands of the candidates is what the choice needs.
Standing-scores :
    (folded : Text) (exclude : List Span) (cs : List Candidate)
    → All (Standing folded exclude) cs
    → All (λ c. (c.score ≤ 245) × (4 ≤ length c.code)) cs
Standing-scores folded exclude [] h = tt
Standing-scores folded exclude (c ∷ cs) ((digits, code, pos, long, short, clear, bound), h) =
    ((bound, long), Standing-scores folded exclude cs h)

module _ (u : Runes) (context : List Text) (folded : Text) (exclude : List Span)
    (ranges : All IsRange exclude) where
  distinct_codes-Standing : All (Standing folded exclude) (otp_candidates u context folded exclude)
  unfolding otp_candidates
  distinct_codes-Standing = distinct_codes-All (Standing folded exclude) [] _ (
      sort_by-All (Standing folded exclude) ranked_before _ (
        find_candidates-Standing (longest_word context) folded
          (sort_by begins_before (find_words u folded context)) exclude (digit_runs u folded)
          ranges))

  -- Where the excluded ranges are ranges, each candidate is a run of four to eight bytes of the text that
  -- overlaps none of them, and no code is among the candidates twice.
  pub otp_candidates-Standing :
      All (Standing folded exclude) (otp_candidates u context folded exclude)
      × Unrepeated [] (otp_candidates u context folded exclude)
  unfolding otp_candidates
  otp_candidates-Standing = (distinct_codes-Standing, distinct_codes-Unrepeated [] _)

  otp_candidates-Ascending : Ascending shortfall (otp_candidates u context folded exclude)
  unfolding otp_candidates
  otp_candidates-Ascending = distinct_codes-Ascending [] _ (
      sort_by-Ascending shortfall ranked_before ranked_shortfall unranked_shortfall (
        find_candidates (longest_word context) folded
          (sort_by begins_before (find_words u folded context)) (merge_spans exclude)
          (digit_runs u folded)))

  -- Where the excluded ranges are ranges, the chosen code is a candidate's, whose score is above none and as
  -- high as any candidate's, and it is empty where no candidate has a score above none.
  pub choose-Highest :
      Best
        (otp_candidates u context folded exclude)
        (choose [] (otp_candidates u context folded exclude))
  choose-Highest =
      choose-Best (otp_candidates u context folded exclude)
        (Standing-scores folded exclude _ distinct_codes-Standing) otp_candidates-Ascending
