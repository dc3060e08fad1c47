-- ===== src/Extract/Otp/Window.antt =====
-- The words that the score of a code leaves out (internal/extract/otp.go: `scoreCandidate`).
use authstunt.Prelude.{
  ℕ, zero, suc, ◌+◌, ◌-◌, ◌≤◌, ◌<◌, ◌≡◌, refl, sym, ap, subst, ◌∙◌, ◌⊎◌, inl, inr, Text, Bool, true,
  false, Option, none, some, List, [], ◌∷◌, length, drop, All, Ascending, All-mono, ltb, leb, ◌||◌,
  if◌then◌else◌, Bool-cases, if_true, if_false, arith, ltb→lt, lt→ltb, leb→le, ltb_false→le,
}
use authstunt.Extract.Spans.{Span, search_index}
use authstunt.Extract.Search.{First, IsMonotone, search_index-First}
use authstunt.Extract.Merge.{IsRange, begins}
use authstunt.Extract.Otp.{
  Near, nearer, see, look, near_points, points, length_points, year_penalty, reaches_from, unseen,
  total, score_candidate,
}

-- Every word counts.
unfoldable pub look_all : Span → Near → List Span → Near
look_all digits n [] = n
look_all digits n (w ∷ words) = look_all digits (see digits n w) words

-- Too far to score.
abbrev IsBeyond : Option ℕ → Type 0
IsBeyond none = Unit {0}
IsBeyond (some d) = 160 < d

-- The same score.
abbrev Same : Near → Near → Type 0
Same n m =
    (n.leading ≡ m.leading) × ((n.nearest ≡ m.nearest) ⊎ (IsBeyond n.nearest × IsBeyond m.nearest))

Same-refl : (n : Near) → Same n n
Same-refl n = (refl, inl refl)

nearer-IsBeyond : (o : Option ℕ) (d : ℕ) → IsBeyond o → 160 < d → IsBeyond (nearer o d)
unfolding nearer
nearer-IsBeyond none d h lt = lt
nearer-IsBeyond (some e) d h lt = elim (Bool-cases (ltb d e)) [
  | inl t ↦ subst IsBeyond (sym (if_true _ _ _ t)) lt
  | inr t ↦ subst IsBeyond (sym (if_false _ _ _ t)) h
]

nearer_within : (o : Option ℕ) (d : ℕ) → IsBeyond o → d ≤ 160 → nearer o d ≡ some d
unfolding nearer
nearer_within none d h le = refl
nearer_within (some e) d h le = if_true (ltb d e) _ _ (lt→ltb _ _ (omega (arith, h, le)))

nearer-Same :
    (o p : Option ℕ) (d : ℕ)
    → (o ≡ p) ⊎ (IsBeyond o × IsBeyond p)
    → (nearer o d ≡ nearer p d) ⊎ (IsBeyond (nearer o d) × IsBeyond (nearer p d))
nearer-Same o p d (inl e) = inl (ap (λ x. nearer x d) e)
nearer-Same o p d (inr h) = elim (Bool-cases (ltb 160 d)) [
  | inl lt ↦ inr (nearer-IsBeyond o d h.0 (ltb→lt _ _ lt), nearer-IsBeyond p d h.1 (ltb→lt _ _ lt))
  | inr le ↦ inl (
      nearer_within o d h.0 (ltb_false→le _ _ le)
      ∙ sym (nearer_within p d h.1 (ltb_false→le _ _ le)))
]

-- A word too far off changes nothing that scores.
nearer_far :
    (o : Option ℕ) (d : ℕ) → 160 < d → (o ≡ nearer o d) ⊎ (IsBeyond o × IsBeyond (nearer o d))
unfolding nearer
nearer_far none d lt = inr (tt, lt)
nearer_far (some e) d lt = elim (Bool-cases (ltb d e)) [
  | inl t ↦ inr (omega (arith, lt, ltb→lt _ _ t), subst IsBeyond (sym (if_true _ _ _ t)) lt)
  | inr t ↦ inl (sym (if_false (ltb d e) _ _ t))
]

see-Same :
    (digits : Span) (n m : Near) (w : Span) → Same n m → Same (see digits n w) (see digits m w)
unfolding see
see-Same digits n m w h = elim (Bool-cases (leb w.stop digits.start)) [
  | inl e ↦ rw e (ap (λ b. b || leb (digits.start - w.stop) 24) h.0, nearer-Same _ _ _ h.1)
  | inr e ↦ elim (Bool-cases (leb digits.stop w.start)) [
    | inl f ↦ rw (e, f) (h.0, nearer-Same _ _ _ h.1)
    | inr f ↦ rw (e, f) (h.0, nearer-Same _ _ _ h.1)
  ]
]

far_leading : (b : Bool) (d : ℕ) → 160 < d → b ≡ (b || leb d 24)
far_leading b d lt = ground arith

-- A word that ends far in front of the run.
see_before :
    (digits : Span) (n : Near) (w : Span) → w.stop + 160 < digits.start → Same n (see digits n w)
unfolding see
see_before digits n w far =
    let in_front : leb w.stop digits.start ≡ true = ground arith in
    rw in_front (
      far_leading n.leading (digits.start - w.stop) (omega (arith, far)),
      nearer_far n.nearest (digits.start - w.stop) (omega (arith, far)),
    )

-- A word that begins far behind the run.
see_behind :
    (digits : Span) (n : Near) (w : Span)
    → IsRange w
    → IsRange digits
    → digits.stop + 160 < w.start
    → Same n (see digits n w)
unfolding see
see_behind digits n w range run far =
    let behind : leb w.stop digits.start ≡ false = ground arith in
    let after : leb digits.stop w.start ≡ true = ground arith in
    rw (behind, after) (refl, nearer_far n.nearest (w.start - digits.stop) (omega (arith, far)))

either_trans :
    (a b c : Option ℕ)
    → (a ≡ b) ⊎ (IsBeyond a × IsBeyond b)
    → (b ≡ c) ⊎ (IsBeyond b × IsBeyond c)
    → (a ≡ c) ⊎ (IsBeyond a × IsBeyond c)
either_trans a b c (inl e) (inl f) = inl (e ∙ f)
either_trans a b c (inl e) (inr k) = inr (subst IsBeyond (sym e) k.0, k.1)
either_trans a b c (inr h) (inl f) = inr (h.0, subst IsBeyond f h.1)
either_trans a b c (inr h) (inr k) = inr (h.0, k.1)

Same-trans : (a b c : Near) → Same a b → Same b c → Same a c
Same-trans a b c h k = (h.0 ∙ k.0, either_trans a.nearest b.nearest c.nearest h.1 k.1)

near_points-IsBeyond : (o : Option ℕ) → IsBeyond o → near_points o ≡ 0
unfolding near_points
near_points-IsBeyond none h = refl
near_points-IsBeyond (some d) h = ground arith

points-Same : (n m : Near) → Same n m → points n ≡ points m
unfolding points
points-Same n m h =
    ap (λ b. near_points n.nearest + (if b then 15 else 0)) h.0
    ∙ ap (λ k. k + (if m.leading then 15 else 0))
        (elim h.1 [
          | inl e ↦ ap near_points e
          | inr both ↦
              near_points-IsBeyond n.nearest both.0 ∙ sym (near_points-IsBeyond m.nearest both.1)
        ])

look_all-Same :
    (digits : Span) (n m : Near) (words : List Span)
    → Same n m
    → Same (look_all digits n words) (look_all digits m words)
unfolding look_all
look_all-Same digits n m [] h = h
look_all-Same digits n m (w ∷ words) h =
    look_all-Same digits (see digits n w) (see digits m w) words (see-Same digits n m w h)

-- The range of a context word.
abbrev pub IsWord : ℕ → Span → Type 0
IsWord longest w = (w.start ≤ w.stop) × (w.stop ≤ w.start + longest)

module _ (longest : ℕ) (digits : Span) (run : IsRange digits) where
  -- The words in front of the first that can reach the run.
  skipped-Same :
      (r : ℕ) (n : Near) (words : List Span)
      → ((k : ℕ) → k < r → reaches_from longest digits words k ≡ false)
      → r ≤ length words
      → All (IsWord longest) words
      → Same (look_all digits n (drop r words)) (look_all digits n words)
  unfolding look_all reaches_from
  skipped-Same zero n words low le h = Same-refl _
  skipped-Same (suc r) n [] low le h = absurd (omega arith)
  skipped-Same (suc r) n (w ∷ words) low le h =
      let far : w.stop + 160 < digits.start = too_far (low 0 (omega arith)) in
      Same-trans _ _ _
        (look_all-Same digits n (see digits n w) (drop r words) (see_before digits n w far))
        (skipped-Same r (see digits n w) words (λ k lt. low (suc k) (omega arith)) (omega arith)
          h.1)
    where
      too_far : leb digits.start (w.start + 160 + longest) ≡ false → w.stop + 160 < digits.start
      too_far e =
          let gap : w.start + 160 + longest < digits.start = ground arith in
          omega (arith, gap, h.0.1)

  behind-Same :
      (n : Near) (words : List Span)
      → All (IsWord longest) words
      → All (λ w. digits.stop + 160 < w.start) words
      → Same n (look_all digits n words)
  unfolding look_all
  behind-Same n [] h far = Same-refl n
  behind-Same n (w ∷ words) h far =
      Same-trans _ _ _ (see_behind digits n w h.0.0 run far.0)
        (behind-Same (see digits n w) words h.1 far.1)

  -- The words behind the first that begins too far off.
  look-Same :
      (n : Near) (words : List Span)
      → All (IsWord longest) words
      → Ascending begins words
      → Same (look digits n words) (look_all digits n words)
  unfolding look look_all
  look-Same n [] h sorted = Same-refl n
  look-Same n (w ∷ words) h sorted = split (look-Same (see digits n w) words h.1 sorted.1)
    where
      all_far : digits.stop + 160 < w.start → All (λ v. digits.stop + 160 < v.start) words
      all_far lt = All-mono _ _ words (λ v le. omega (arith, lt, le)) sorted.0

      split :
          Same (look digits (see digits n w) words) (look_all digits (see digits n w) words)
          → Same (look digits n (w ∷ words)) (look_all digits n (w ∷ words))
      split rest = elim (Bool-cases (ltb (digits.stop + 160) w.start)) [
        | inl e ↦
            subst (λ x. Same x (look_all digits (see digits n w) words)) (sym (if_true _ _ _ e))
              (behind-Same n (w ∷ words) h (ltb→lt _ _ e, all_far (ltb→lt _ _ e)))
        | inr e ↦
            subst (λ x. Same x (look_all digits (see digits n w) words)) (sym (if_false _ _ _ e))
              rest
      ]

  reaches-there :
      (m j : ℕ) (words : List Span)
      → digits.start ≤ m + 160 + longest
      → All (λ w. m ≤ w.start) words
      → j < length words
      → reaches_from longest digits words j ≡ true
  unfolding reaches_from
  reaches-there m j [] le h inside = absurd (omega arith)
  reaches-there m zero (w ∷ words) le h inside = let from = h.0 in ground arith
  reaches-there m (suc j) (w ∷ words) le h inside = reaches-there m j words le h.1 (omega arith)

  reaches-IsMonotone :
      (words : List Span)
      → Ascending begins words
      → IsMonotone (reaches_from longest digits words) (length words)
  unfolding reaches_from
  reaches-IsMonotone [] h i j le inside e = absurd (omega arith)
  reaches-IsMonotone (w ∷ words) h zero zero le inside e = e
  reaches-IsMonotone (w ∷ words) h zero (suc j) le inside e =
      reaches-there w.start j words (leb→le _ _ e) h.0 (omega arith)
  reaches-IsMonotone (w ∷ words) h (suc i) zero le inside e = absurd (omega arith)
  reaches-IsMonotone (w ∷ words) h (suc i) (suc j) le inside e =
      reaches-IsMonotone words h.1 i j (omega arith) (omega arith) e

drop-IsWord :
    (longest n : ℕ) (words : List Span)
    → All (IsWord longest) words
    → Ascending begins words
    → All (IsWord longest) (drop n words) × Ascending begins (drop n words)
drop-IsWord longest zero words h sorted = (h, sorted)
drop-IsWord longest (suc n) [] h sorted = (tt, tt)
drop-IsWord longest (suc n) (w ∷ words) h sorted = drop-IsWord longest n words h.1 sorted.1

-- For words in the order of their start, none longer than the longest, the score of a code that looks only
-- at the words between the first found by halving and the first too far behind is the score that looks at
-- every word.
pub score_candidate-look_all :
    (longest : ℕ) (code : Text) (digits : Span) (words : List Span)
    → IsRange digits
    → All (IsWord longest) words
    → Ascending begins words
    → score_candidate longest code digits words ≡ total code (look_all digits unseen words)
unfolding score_candidate total
score_candidate-look_all longest code digits words run h sorted =
    ap (λ p. 120 + p + length_points (length code) - year_penalty code) (points-Same _ _ same)
  where
    first :
        First
          (reaches_from longest digits words)
          (length words)
          (search_index (length words) (reaches_from longest digits words))
    first = search_index-First _ _ (reaches-IsMonotone longest digits run words sorted)

    same :
        Same
          (look digits unseen
            (drop (search_index (length words) (reaches_from longest digits words)) words))
          (look_all digits unseen words)
    same =
        let suffix =
          drop-IsWord longest (search_index (length words) (reaches_from longest digits words))
            words h sorted in
        Same-trans _ _ _ (look-Same longest digits run unseen _ suffix.0 suffix.1)
          (skipped-Same longest digits run _ unseen words first.before first.inside h)
