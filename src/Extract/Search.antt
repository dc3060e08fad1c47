-- ===== src/Extract/Search.antt =====
-- The search by halving (`sort.Search`, as internal/extract calls it) finds the first index.
use authstunt.Prelude.{
  ℕ, zero, suc, ◌+◌, ◌-◌, ◌/◌, ◌≤◌, ◌<◌, ◌≡◌, sym, subst, ◌∙◌, inl, inr, Bool, true, false, ltb,
  Bool-cases, if_true, if_false, arith, ltb→lt, ltb_false→le,
}
use authstunt.Extract.Spans.{search_between, search_index}

-- Once true, the test stays true up to the bound.
abbrev pub IsMonotone : (ℕ → Bool) → ℕ → Type 0
IsMonotone f bound = (i j : ℕ) → i ≤ j → j < bound → f i ≡ true → f j ≡ true

-- The test is false before `r`, and true from `r` on up to the bound.
pub record First (f : ℕ → Bool) (bound : ℕ) (r : ℕ) : Type 0 where
  pub inside : r ≤ bound
  pub before : (k : ℕ) → k < r → f k ≡ false
  pub from_there : (k : ℕ) → r ≤ k → k < bound → f k ≡ true

half_below : (i j : ℕ) → i < j → (i + j) / 2 < j
half_below i j h = grind arith

half_from : (i j : ℕ) → i < j → i ≤ (i + j) / 2
half_from i j h = grind arith

module _ (f : ℕ → Bool) (n : ℕ) (mono : IsMonotone f n) where
  stays_false : (h k : ℕ) → k ≤ h → h < n → f h ≡ false → f k ≡ false
  stays_false h k le below e = elim (Bool-cases (f k)) [
    | inr no_hit ↦ no_hit
    | inl hit ↦ absurd (clash (sym (mono k h le below hit) ∙ e))
  ]
    where
      clash : true ≡ false → ⊥
      clash q = cc

  search_between-First :
      (fuel i j : ℕ)
      → j - i ≤ fuel
      → i ≤ j
      → j ≤ n
      → ((k : ℕ) → k < i → f k ≡ false)
      → ((k : ℕ) → j ≤ k → k < n → f k ≡ true)
      → First f n (search_between fuel f i j)
  unfolding search_between
  search_between-First zero i j enough le below low high = record {
    inside = omega (arith, enough, le, below);
    before = low;
    from_there = λ k from inside. high k (omega (arith, enough, le, from)) inside;
  }
  search_between-First (suc fuel) i j enough le below low high = elim (Bool-cases (ltb i j)) [
    | inr e ↦ subst (First f n) (sym (if_false (ltb i j) _ _ e)) (record {
      inside = omega (arith, le, below);
      before = low;
      from_there = λ k from inside. high k (omega (arith, ltb_false→le _ _ e, from)) inside;
    })
    | inl e ↦ elim (Bool-cases (f ((i + j) / 2))) [
      | inl t ↦
          subst (First f n) (sym (if_true (ltb i j) _ _ e ∙ if_true (f ((i + j) / 2)) _ _ t)) (
            search_between-First fuel i ((i + j) / 2)
              (omega (arith, enough, half_below i j (ltb→lt _ _ e))) (half_from i j (ltb→lt _ _ e))
              (omega (arith, below, half_below i j (ltb→lt _ _ e))) low
              (λ k from inside. mono ((i + j) / 2) k from inside t))
      | inr t ↦
          subst (First f n) (sym (if_true (ltb i j) _ _ e ∙ if_false (f ((i + j) / 2)) _ _ t)) (
            search_between-First fuel ((i + j) / 2 + 1) j
              (omega (arith, enough, half_from i j (ltb→lt _ _ e)))
              (omega (arith, half_below i j (ltb→lt _ _ e))) below
              (λ k lt.
                stays_false ((i + j) / 2) k (omega (arith, lt))
                  (omega (arith, below, half_below i j (ltb→lt _ _ e))) t)
              high)
    ]
  ]

-- Where a test stays true once it is true, as many rounds of halving as there are indices find the first
-- index at which it is true, or the bound where there is none.
pub search_index-First : (f : ℕ → Bool) (n : ℕ) → IsMonotone f n → First f n (search_index n f)
unfolding search_index
search_index-First f n mono =
    search_between-First f n mono n 0 n (omega arith) (omega arith) (omega arith)
      (λ k lt. absurd (omega (arith, lt))) (λ k le lt. absurd (omega (arith, le, lt)))
