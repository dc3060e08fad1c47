-- ===== src/Store/Address.antt =====
-- internal/store/address.go and domain.go. `to_ascii` is the IDNA profile; the white space that
-- `strings.TrimSpace` takes off is the ASCII one.
use authstunt.Prelude.{
  ℕ, ◌+◌, Text, Bool, true, false, Option, none, some, List, [], ◌∷◌, ◌++◌, leb, ◌==◌, ◌&&◌, ◌||◌,
  if◌then◌else◌, text_eq,
}
use authstunt.Ledger.Events.{cut_at}

unfoldable pub is_space : ℕ → Bool
is_space c = c == 32 || (leb 9 c && leb c 13)

unfoldable pub trim_left : Text → Text
unfolding is_space
trim_left [] = []
trim_left (c ∷ s) = if is_space c then trim_left s else c ∷ s

unfoldable pub trim_right : Text → Text
unfolding is_space
trim_right [] = []
trim_right (c ∷ s) = elim (trim_right s) [
  | [] ↦ if is_space c then [] else c ∷ []
  | d ∷ t ↦ c ∷ d ∷ t
]

unfoldable pub trim_space : Text → Text
unfolding trim_left trim_right
trim_space s = trim_right (trim_left s)

-- `strings.TrimSuffix(d, ".")`.
unfoldable pub trim_dot : Text → Text
trim_dot [] = []
trim_dot (c ∷ []) = if c == b'.' then [] else c ∷ []
trim_dot (c ∷ d ∷ s) = c ∷ trim_dot (d ∷ s)

unfoldable pub lower_byte : ℕ → ℕ
lower_byte c = if leb b'A' c && leb c b'Z' then c + 32 else c

unfoldable pub ascii_lower : Text → Text
unfolding lower_byte
ascii_lower [] = []
ascii_lower (c ∷ s) = lower_byte c ∷ ascii_lower s

-- The comparison of a column with `COLLATE NOCASE`.
unfoldable pub same_addr : Text → Text → Bool
unfolding ascii_lower text_eq
same_addr a b = text_eq (ascii_lower a) (ascii_lower b)

-- `strings.CutPrefix(p, "*.")`: the rest, and whether the prefix was there.
unfoldable pub cut_wildcard : Text → Text × Bool
cut_wildcard [] = ([], false)
cut_wildcard (c ∷ []) = (c ∷ [], false)
cut_wildcard (c ∷ d ∷ s) = if c == b'*' && d == b'.' then (s, true) else (c ∷ d ∷ s, false)

unfoldable pub has_suffix : Text → Text → Bool
unfolding text_eq
has_suffix [] suffix = text_eq [] suffix
has_suffix (c ∷ s) suffix = text_eq (c ∷ s) suffix || has_suffix s suffix

module _ (to_ascii : Text → Option Text) where
  unfoldable pub canonical_domain : Text → Option Text
  unfolding trim_space trim_dot ascii_lower
  canonical_domain domain = elim (to_ascii (trim_dot (trim_space domain))) [
    | none ↦ none
    | some ascii ↦ some (ascii_lower ascii)
  ]

  unfoldable pub normal_domain : Text → Text
  unfolding canonical_domain trim_space ascii_lower
  normal_domain domain = elim (canonical_domain domain) [
    | some canonical ↦ canonical
    | none ↦ ascii_lower (trim_space domain)
  ]

  unfoldable pub normalize_address : Text → Text
  unfolding normal_domain trim_space cut_at
  normalize_address raw = elim (cut_at (trim_space raw)) [
    | none ↦ trim_space raw
    | some (local, domain) ↦ local ++ (b'@' ∷ normal_domain domain)
  ]

  unfoldable pub pattern_matches : Text → Text → Bool
  unfolding canonical_domain cut_wildcard has_suffix text_eq trim_space
  pattern_matches domain p =
      let (base, wildcard) = cut_wildcard (trim_space p) in
      elim (canonical_domain base) [
        | none ↦ false
        | some canonical ↦
            text_eq domain canonical || (wildcard && has_suffix domain (b'.' ∷ canonical))
      ]

  unfoldable pub matches_any : List Text → Text → Bool
  unfolding pattern_matches
  matches_any [] domain = false
  matches_any (p ∷ ps) domain = pattern_matches domain p || matches_any ps domain

  unfoldable pub allowlist_matches : List Text → Text → Bool
  unfolding cut_at canonical_domain matches_any
  allowlist_matches patterns addr = elim (cut_at addr) [
    | none ↦ false
    | some (local, domain) ↦ elim (canonical_domain domain) [
      | none ↦ false
      | some canonical ↦ matches_any patterns canonical
    ]
  ]

  -- `strings.Contains(base, "*")`.
  unfoldable pub has_star : Text → Bool
  has_star [] = false
  has_star (c ∷ s) = c == b'*' || has_star s

  unfoldable pub with_wildcard : Bool → Text → Text
  with_wildcard true canonical = b'*' ∷ b'.' ∷ canonical
  with_wildcard false canonical = canonical

  -- `CanonicalDomainPattern`.
  unfoldable pub canonical_pattern : Text → Option Text
  unfolding canonical_domain cut_wildcard trim_space has_star with_wildcard
  canonical_pattern pattern =
      let (base, wildcard) = cut_wildcard (trim_space pattern) in
      if has_star base then none else elim (canonical_domain base) [
        | none ↦ none
        | some canonical ↦ some (with_wildcard wildcard canonical)
      ]
