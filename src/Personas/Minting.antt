-- ===== src/Personas/Minting.antt =====
-- The addresses that are minted for a run.
use authstunt.Prelude.{
  ℕ, ◌≡◌, refl, sym, inl, inr, Text, Bool, true, false, some, [], ◌∷◌, ◌++◌, leb, ◌==◌, ◌&&◌, ◌||◌,
  any, All, Bool-cases, arith, ◌/◌, ◌%◌, ◌<◌,
}
use mathlib.Core.List.{append_assoc}
use authstunt.Ledger.Events.{cut_at}
use authstunt.Ledger.Redaction.{at_sign, cut_at-append}
use authstunt.Store.Address.{lower_byte}
use authstunt.Personas.Address.{
  hex_digit, hex, is_alnum, is_separator, safe_bytes, or_run, sanitize_role, minted,
}

-- A byte that a minted local part may have: a lower-case letter, a digit or a dash.
abbrev pub is_safe : ℕ → Bool
is_safe c = (leb b'a' c && leb c b'z') || ((leb b'0' c && leb c b'9') || c == b'-')

abbrev IsSafe : Text → Type 0
IsSafe = All (λ c. is_safe c ≡ true)

safe_bytes-IsSafe : (s : Text) → IsSafe (safe_bytes s)
unfolding safe_bytes is_alnum
safe_bytes-IsSafe [] = tt
safe_bytes-IsSafe (c ∷ s) = elim (Bool-cases (is_alnum (lower_byte c))) [
  | inl e ↦ rw e (ground arith, safe_bytes-IsSafe s)
  | inr e ↦ elim (Bool-cases (is_separator (lower_byte c))) [
    | inl d ↦ rw (e, d) (refl, safe_bytes-IsSafe s)
    | inr d ↦ rw (e, d) (safe_bytes-IsSafe s)
  ]
]

or_run-IsSafe : (s : Text) → IsSafe s → IsSafe (or_run s)
unfolding or_run
or_run-IsSafe [] h = (refl, (refl, (refl, tt)))
or_run-IsSafe (c ∷ s) h = h

append-IsSafe : (s t : Text) → IsSafe s → IsSafe t → IsSafe (s ++ t)
append-IsSafe [] t h k = k
append-IsSafe (c ∷ s) t h k = (h.0, append-IsSafe s t h.1 k)

hex_digit-safe : (n : ℕ) → n < 16 → is_safe (hex_digit n) ≡ true
unfolding hex_digit
hex_digit-safe n h = ground arith

-- A drawn suffix is a string of bytes.
abbrev pub IsBytes : Text → Type 0
IsBytes = All (λ c. c < 256)

hex-IsSafe : (s : Text) → IsBytes s → IsSafe (hex s)
unfolding hex
hex-IsSafe [] h = tt
hex-IsSafe (c ∷ s) h = (
  hex_digit-safe (c / 16) (omega (arith, h.0)),
  (hex_digit-safe (c % 16) (omega arith), hex-IsSafe s h.1),
)

-- The local part of a minted address.
abbrev pub minted_local : Text → Text → Text
minted_local role suffix = sanitize_role role ++ (b'-' ∷ hex suffix)

minted-split :
    (role suffix domain : Text)
    → minted role suffix domain ≡ minted_local role suffix ++ (b'@' ∷ domain)
unfolding minted
minted-split role suffix domain = sym (append_assoc (sanitize_role role) _ _)

minted_local-IsSafe : (role suffix : Text) → IsBytes suffix → IsSafe (minted_local role suffix)
unfolding sanitize_role
minted_local-IsSafe role suffix h =
    append-IsSafe _ _ (or_run-IsSafe _ (safe_bytes-IsSafe role)) (refl, hex-IsSafe suffix h)

-- A minted address, for any role and any drawn bytes, has exactly the domain of the service after its
-- last "@", if that domain has no "@", and before it a local part of lower-case letters, digits and
-- dashes.
pub minted-cut :
    (role suffix domain : Text)
    → any at_sign domain ≡ false
    → IsBytes suffix
    → (cut_at (minted role suffix domain) ≡ some (minted_local role suffix, domain))
      × All (λ c. is_safe c ≡ true) (minted_local role suffix)
minted-cut role suffix domain no_at h = (
  rw (minted-split role suffix domain) (cut_at-append (minted_local role suffix) domain no_at),
  minted_local-IsSafe role suffix h,
)
