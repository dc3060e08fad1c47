-- ===== src/Ledger/Redaction.antt =====
-- The cut of an address at its last "@", and what a redacted address shows.
use authstunt.Prelude.{
  ℕ, ◌≡◌, refl, Text, Bool, false, none, some, [], ◌∷◌, ◌++◌, ◌==◌, any, or_left_false,
  or_right_false,
}
use authstunt.Ledger.Events.{cut_at}

abbrev pub at_sign : ℕ → Bool
at_sign c = c == b'@'

pub cut_at-none : (s : Text) → any at_sign s ≡ false → cut_at s ≡ none
unfolding cut_at any
cut_at-none [] h = refl
cut_at-none (c ∷ s) h =
    rw (cut_at-none s (or_right_false (at_sign c) _ h), or_left_false (at_sign c) _ h) refl

-- The cut finds the last "@": whatever stands before it is the local part.
pub cut_at-append :
    (local domain : Text)
    → any at_sign domain ≡ false
    → cut_at (local ++ (b'@' ∷ domain)) ≡ some (local, domain)
unfolding cut_at
cut_at-append [] domain h = rw (cut_at-none domain h) refl
cut_at-append (c ∷ local) domain h = rw (cut_at-append local domain h) refl
