-- ===== src/Personas/Address.antt =====
-- Minted addresses (internal/personas/lease.go: `mintAddress`, `sanitizeRole`). A role is ASCII.
use authstunt.Prelude.{
  ℕ, ◌+◌, ◌/◌, ◌%◌, Text, Bool, [], ◌∷◌, ◌++◌, ltb, leb, ◌==◌, ◌&&◌, ◌||◌, if◌then◌else◌,
}
use authstunt.Store.Monad.{M, constraint, ◌>>=◌, ◌>>◌, pure, guard, or_fail, outside, random_bytes}
use authstunt.Store.Address.{lower_byte, allowlist_matches}

-- `hex.EncodeToString`.
unfoldable pub hex_digit : ℕ → ℕ
hex_digit n = if ltb n 10 then b'0' + n else 87 + n

unfoldable pub hex : Text → Text
unfolding hex_digit
hex [] = []
hex (b ∷ bs) = hex_digit (b / 16) ∷ hex_digit (b % 16) ∷ hex bs

unfoldable pub is_alnum : ℕ → Bool
is_alnum c = (leb b'a' c && leb c b'z') || (leb b'0' c && leb c b'9')

unfoldable pub is_separator : ℕ → Bool
is_separator c = c == b'-' || c == b'_'

unfoldable pub safe_bytes : Text → Text
unfolding lower_byte is_alnum is_separator
safe_bytes [] = []
safe_bytes (c ∷ s) =
    let rest = safe_bytes s in
    if is_alnum (lower_byte c)
    then lower_byte c ∷ rest
    else if is_separator (lower_byte c)
    then b'-' ∷ rest
    else rest

-- "run" where nothing is left.
unfoldable pub or_run : Text → Text
or_run [] = b'r' ∷ b'u' ∷ b'n' ∷ []
or_run (c ∷ s) = c ∷ s

unfoldable pub sanitize_role : Text → Text
unfolding safe_bytes or_run
sanitize_role role = or_run (safe_bytes role)

unfoldable pub minted : Text → Text → Text → Text
minted role suffix domain = sanitize_role role ++ (b'-' ∷ hex suffix ++ (b'@' ∷ domain))

unfoldable pub mint_address : Text → Text → M Text
mint_address domain role = do
  drawn ← random_bytes
  suffix ← or_fail drawn constraint
  owned ← outside (λ o. allowlist_matches o.to_ascii (domain ∷ []) (minted role suffix domain))
  guard owned constraint
  pure (minted role suffix domain)
