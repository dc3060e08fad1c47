-- ===== src/Extract/Otp/Words.antt =====
-- The context words that internal/extract/extract.go: `findWords` finds, and the score that they give.
use authstunt.Prelude.{
  ℕ, zero, suc, ◌+◌, ◌≤◌, ◌≡◌, refl, sym, inl, inr, Text, Bool, true, false, Option, none, some,
  List, [], ◌∷◌, ◌++◌, length, drop, sort_by, sort_by-All, sort_by-Ascending, All, All-mono, ltb,
  if◌then◌else◌, Bool-cases, arith, ltb→lt, ltb_false→le, ◌-◌, ◌<◌, ap, drop_all, length-drop,
}
use authstunt.Extract.Spans.{Span}
use authstunt.Extract.Merge.{IsRange, begins}
use authstunt.Extract.Otp.{
  Runes, is_word_boundary, index_of, has_prefix, find_word, find_words, longest_word, begins_before,
  score_candidate, total, unseen,
}
use authstunt.Extract.Otp.Window.{IsWord, look_all, score_candidate-look_all}

All-append : (P : Span → Type 0) (xs ys : List Span) → All P xs → All P ys → All P (xs ++ ys)
All-append P [] ys hx hy = hy
All-append P (x ∷ xs) ys hx hy = (hx.0, All-append P xs ys hx.1 hy)

find_word-IsWord :
    (fuel : ℕ) (u : Runes) (hay w : Text) (from : ℕ)
    → All (IsWord (length w)) (find_word fuel u hay w from)
unfolding find_word
find_word-IsWord zero u hay w from = tt
find_word-IsWord (suc fuel) u hay w from =
    split (index_of (drop from hay) w) (λ next. find_word-IsWord fuel u hay w next)
  where
    bounded :
        (b : Bool) (start : ℕ) (rest : List Span)
        → All (IsWord (length w)) rest
        → All
            (IsWord (length w))
            (if b then record { start = start; stop = start + length w } ∷ rest else rest)
    bounded true start rest h = ((omega arith, omega arith), h)
    bounded false start rest h = h

    split :
        (o : Option ℕ)
        → ((next : ℕ) → All (IsWord (length w)) (find_word fuel u hay w next))
        → All (IsWord (length w)) (elim o [
          | none ↦ []
          | some i ↦
              if is_word_boundary u hay (from + i) (from + i + length w)
              then record { start = from + i; stop = from + i + length w }
                ∷ find_word fuel u hay w (from + i + 1)
              else find_word fuel u hay w (from + i + 1)
        ])
    split none rec = tt
    split (some i) rec =
        bounded (is_word_boundary u hay (from + i) (from + i + length w)) (from + i) _
          (rec (from + i + 1))

IsWord-longer : (m n : ℕ) (words : List Span) → m ≤ n → All (IsWord m) words → All (IsWord n) words
IsWord-longer m n words le h =
    All-mono (IsWord m) (IsWord n) words (λ w k. (k.0, omega (arith, k.1, le))) h

longest_word-cons :
    (w : Text) (words : List Text)
    → (length w ≤ longest_word (w ∷ words)) × (longest_word words ≤ longest_word (w ∷ words))
unfolding longest_word
longest_word-cons w words = elim (Bool-cases (ltb (longest_word words) (length w))) [
  | inl e ↦ rw e (omega arith, omega (arith, ltb→lt _ _ e))
  | inr e ↦ rw e (omega (arith, ltb_false→le _ _ e), omega arith)
]

find_words-IsWord :
    (u : Runes) (hay : Text) (words : List Text)
    → All (IsWord (longest_word words)) (find_words u hay words)
unfolding find_words
find_words-IsWord u hay [] = tt
find_words-IsWord u hay (w ∷ words) =
    let longest = longest_word-cons w words in
    All-append (IsWord (longest_word (w ∷ words))) _ _
      (IsWord-longer (length w) (longest_word (w ∷ words)) _ longest.0
        (find_word-IsWord (suc (length hay)) u hay w 0))
      (IsWord-longer (longest_word words) (longest_word (w ∷ words)) _ longest.1
        (find_words-IsWord u hay words))

before_begins : (a b : Span) → begins_before a b ≡ true → a.start ≤ b.start
unfolding begins_before
before_begins a b h = ground arith

after_begins : (a b : Span) → begins_before a b ≡ false → b.start ≤ a.start
unfolding begins_before
after_begins a b h = ground arith

-- The score of a run, which looks only at the context words between the first found by halving and the
-- first too far behind, is the score that looks at every context word of the text.
pub score_candidate-find_words :
    (u : Runes) (context : List Text) (folded code : Text) (digits : Span)
    → IsRange digits
    → score_candidate
        (longest_word context)
        code
        digits
        (sort_by begins_before (find_words u folded context))
      ≡ total code (look_all digits unseen (sort_by begins_before (find_words u folded context)))
score_candidate-find_words u context folded code digits run =
    score_candidate-look_all (longest_word context) code digits
      (sort_by begins_before (find_words u folded context)) run
      (sort_by-All (IsWord (longest_word context)) begins_before (find_words u folded context)
        (find_words-IsWord u folded context))
      (sort_by-Ascending begins begins_before before_begins after_begins
        (find_words u folded context))

index_of-below : (s : Text) (c : ℕ) (w : Text) (i : ℕ) → index_of s (c ∷ w) ≡ some i → i < length s
unfolding index_of has_prefix
index_of-below [] c w i e = absurd (none_some e)
  where
    none_some : none ≡ some i → ⊥
    none_some q = cc
index_of-below (b ∷ s) c w i e =
    split (has_prefix (b ∷ s) (c ∷ w)) (index_of s (c ∷ w)) (λ j f. index_of-below s c w j f) e
  where
    at_start : some 0 ≡ some i → i < suc (length s)
    at_start q = let same : 0 ≡ i = cc in omega (arith, same)

    split :
        (hit : Bool) (o : Option ℕ)
        → ((j : ℕ) → o ≡ some j → j < length s)
        → (if hit then some 0 else elim o [ none ↦ none | some j ↦ some (suc j) ]) ≡ some i
        → i < suc (length s)
    split true o rec q = at_start q
    split false none rec q = let wrong : none ≡ some i = q in absurd cc
    split false (some j) rec q = let same : suc j ≡ i = cc in omega (arith, same, rec j refl)

-- Nothing is found behind the end.
find_word-end :
    (fuel : ℕ) (u : Runes) (hay : Text) (c : ℕ) (w : Text) (from : ℕ)
    → length hay ≤ from
    → find_word fuel u hay (c ∷ w) from ≡ []
unfolding find_word index_of has_prefix
find_word-end zero u hay c w from h = refl
find_word-end (suc fuel) u hay c w from h =
    ended (index_of (drop from hay) (c ∷ w)) (ap (λ t. index_of t (c ∷ w)) (drop_all from hay h))
  where
    ended :
        (o : Option ℕ)
        → o ≡ none
        → elim o [
          | none ↦ []
          | some i ↦
              if is_word_boundary u hay (from + i) (from + i + length (c ∷ w))
              then record { start = from + i; stop = from + i + length (c ∷ w) }
                ∷ find_word fuel u hay (c ∷ w) (from + i + 1)
              else find_word fuel u hay (c ∷ w) (from + i + 1)
        ]
          ≡ []
    ended none e = refl
    ended (some i) e = absurd cc

-- As many rounds as there are bytes left find every occurrence of a word that is not empty.
find_word-enough :
    (u : Runes) (hay : Text) (c : ℕ) (w : Text) (fuel more from : ℕ)
    → length hay - from ≤ fuel
    → length hay - from ≤ more
    → find_word fuel u hay (c ∷ w) from ≡ find_word more u hay (c ∷ w) from
unfolding find_word
find_word-enough u hay c w zero more from h k =
    sym (find_word-end more u hay c w from (omega arith))
find_word-enough u hay c w (suc fuel) zero from h k =
    find_word-end (suc fuel) u hay c w from (omega arith)
find_word-enough u hay c w (suc fuel) (suc more) from h k =
    split (index_of (drop from hay) (c ∷ w)) (λ i e.
      find_word-enough u hay c w fuel more (from + i + 1)
        (omega (arith, index_of-below (drop from hay) c w i e, length-drop from hay))
        (omega (arith, index_of-below (drop from hay) c w i e, length-drop from hay)))
  where
    split :
        (o : Option ℕ)
        → ((i : ℕ)
            → o ≡ some i
            → find_word fuel u hay (c ∷ w) (from + i + 1)
              ≡ find_word more u hay (c ∷ w) (from + i + 1))
        → elim o [
          | none ↦ []
          | some i ↦
              if is_word_boundary u hay (from + i) (from + i + length (c ∷ w))
              then record { start = from + i; stop = from + i + length (c ∷ w) }
                ∷ find_word fuel u hay (c ∷ w) (from + i + 1)
              else find_word fuel u hay (c ∷ w) (from + i + 1)
        ]
          ≡ elim o [
            | none ↦ []
            | some i ↦
                if is_word_boundary u hay (from + i) (from + i + length (c ∷ w))
                then record { start = from + i; stop = from + i + length (c ∷ w) }
                  ∷ find_word more u hay (c ∷ w) (from + i + 1)
                else find_word more u hay (c ∷ w) (from + i + 1)
          ]
    split none rec = refl
    split (some i) rec =
        ap
          (λ x.
            if is_word_boundary u hay (from + i) (from + i + length (c ∷ w))
            then record { start = from + i; stop = from + i + length (c ∷ w) } ∷ x
            else x)
          (rec i refl)
