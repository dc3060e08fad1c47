-- ===== src/Extract/Otp/Runs.antt =====
-- The loop that finds the runs of digits (internal/extract/otp.go: `digitRuns`) reaches the end of the text.
use authstunt.Prelude.{
  ℕ, zero, suc, ◌+◌, ◌-◌, ◌≤◌, ◌<◌, ◌≡◌, refl, sym, ap, ◌∙◌, inl, inr, Text, Bool, true, false,
  List, [], ◌∷◌, length, drop, leb, ◌==◌, if◌then◌else◌, Bool-cases, if_true, if_false, arith,
  length-drop,
}
use authstunt.Extract.Spans.{Span}
use authstunt.Extract.Otp.{Runes, leading_digits, digit_runs_from}

-- A rune that is decoded from a text that is not empty has a byte at least.
abbrev pub HasBytes : Runes → Type 0
HasBytes u = (c : ℕ) (s : Text) → 1 ≤ (u.decode_rune (c ∷ s)).1

rune_bytes : (u : Runes) → HasBytes u → (s : Text) → 0 < length s → 1 ≤ (u.decode_rune s).1
rune_bytes u h [] lt = absurd (omega arith)
rune_bytes u h (c ∷ s) lt = h c s

run_or_not :
    (digits : ℕ) (boundary : Bool) (r : Span) (a b c d : List Span)
    → a ≡ b
    → (0 < digits → c ≡ d)
    → (if digits == 0 then a else if boundary then r ∷ c else c)
      ≡ (if digits == 0 then b else if boundary then r ∷ d else d)
run_or_not digits boundary r a b c d e f = split (digits == 0) boundary refl
  where
    some_digit : (digits == 0) ≡ false → 0 < digits
    some_digit z = ground arith

    split :
        (z boundary : Bool)
        → (digits == 0) ≡ z
        → (if z then a else if boundary then r ∷ c else c)
          ≡ (if z then b else if boundary then r ∷ d else d)
    split true boundary z = e
    split false true z = ap (◌∷◌ r) (f (some_digit z))
    split false false z = f (some_digit z)

-- Where every rune has a byte at least, as many rounds as there are bytes left give the result of any
-- greater number of rounds.
pub digit_runs_from-enough :
    (u : Runes) (s : Text)
    → HasBytes u
    → (fuel more i : ℕ) → length s - i ≤ fuel
    → length s - i ≤ more
    → digit_runs_from fuel u s i ≡ digit_runs_from more u s i
unfolding digit_runs_from
digit_runs_from-enough u s h zero zero i enough too = refl
digit_runs_from-enough u s h zero (suc more) i enough too =
    let done : leb (length s) i ≡ true = ground arith in sym (if_true (leb (length s) i) _ _ done)
digit_runs_from-enough u s h (suc fuel) zero i enough too =
    let done : leb (length s) i ≡ true = ground arith in if_true (leb (length s) i) _ _ done
digit_runs_from-enough u s h (suc fuel) (suc more) i enough too =
    elim (Bool-cases (leb (length s) i)) [
      | inl done ↦ if_true (leb (length s) i) _ _ done ∙ sym (if_true (leb (length s) i) _ _ done)
      | inr there ↦
          let inside : i < length s = ground arith in
          let rest : 0 < length (drop i s) = omega (arith, length-drop i s) in
          let bytes : 1 ≤ (u.decode_rune (drop i s)).1 = rune_bytes u h (drop i s) rest in
          if_false (leb (length s) i) _ _ there
          ∙ run_or_not (leading_digits (drop i s)) _ _ _ _ _ _
              (digit_runs_from-enough u s h fuel more (i + (u.decode_rune (drop i s)).1)
                (omega arith) (omega arith))
              (λ some_digit.
                digit_runs_from-enough u s h fuel more (i + leading_digits (drop i s))
                  (omega (arith, some_digit)) (omega (arith, some_digit)))
          ∙ sym (if_false (leb (length s) i) _ _ there)
    ]
