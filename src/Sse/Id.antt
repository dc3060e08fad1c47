-- ===== src/Sse/Id.antt =====
-- internal/sse/id.go: event ids, `generation-seq`. The bus issues no negative number, and an id that
-- is read has none, so both are natural numbers.
use authstunt.Prelude.{
  ℕ, zero, suc, ◌+◌, ◌-◌, ◌*◌, ◌/◌, ◌%◌, ◌^◌, Text, Bool, true, Option, none, some, [], ◌∷◌, ◌++◌,
  ltb, leb, ◌==◌, ◌&&◌, if◌then◌else◌,
}

pub record EventId : Type 0 where
  pub generation : ℕ
  pub seq : ℕ

abbrev pub dash : ℕ
dash = b'-'

-- `strconv.FormatInt(n, 10)`: a digit for each round of fuel.
unfoldable pub digits : ℕ → ℕ → Text
digits zero n = []
digits (suc fuel) n =
    let rest = digits fuel (n / 10) in
    if ltb n 10 then (b'0' + n) ∷ [] else rest ++ ((b'0' + n % 10) ∷ [])

-- An int64 has at most 19 digits.
unfoldable pub format_int : ℕ → Text
unfolding digits
format_int n = digits 19 n

unfoldable pub string : EventId → Text
unfolding format_int
string id = format_int id.generation ++ (dash ∷ format_int id.seq)

abbrev pub zero_id : EventId
zero_id = record { generation = 0; seq = 0 }

unfoldable pub is_zero : EventId → Bool
is_zero id = id.generation == 0 && id.seq == 0

-- `strings.Cut(s, "-")`: around the first dash.
unfoldable pub cut_dash : Text → Option (Text × Text)
cut_dash [] = none
cut_dash (c ∷ s) =
    let rest = cut_dash s in
    if c == dash
    then some ([], s)
    else elim rest [ none ↦ none | some (before, after) ↦ some (c ∷ before, after) ]

unfoldable pub is_digit : ℕ → Bool
is_digit c = leb b'0' c && leb c b'9'

unfoldable pub all_digits : Text → Bool
unfolding is_digit
all_digits [] = true
all_digits (c ∷ s) = is_digit c && all_digits s

unfoldable pub decimal : ℕ → Text → ℕ
decimal n [] = n
decimal n (c ∷ s) = decimal (n * 10 + (c - b'0')) s

abbrev pub max_int64 : ℕ
max_int64 = 2 ^ 63 - 1

-- `strconv.ParseInt` of digits: a number out of range is an error.
unfoldable pub in_range : ℕ → Option ℕ
in_range n = if leb n max_int64 then some n else none

unfoldable pub parse_id_part : Text → Option ℕ
unfolding all_digits decimal in_range
parse_id_part [] = none
parse_id_part (c ∷ s) = if all_digits (c ∷ s) then in_range (decimal 0 (c ∷ s)) else none

unfoldable pub parse_parts : Text → Text → Option EventId
unfolding parse_id_part
parse_parts gen seq = elim (parse_id_part gen) [
  | none ↦ none
  | some g ↦ elim (parse_id_part seq) [
    | none ↦ none
    | some n ↦ some (record { generation = g; seq = n })
  ]
]

unfoldable pub parse_event_id : Text → Option EventId
unfolding cut_dash parse_parts
parse_event_id s = elim (cut_dash s) [ none ↦ none | some (gen, seq) ↦ parse_parts gen seq ]
