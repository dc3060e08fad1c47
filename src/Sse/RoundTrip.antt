-- ===== src/Sse/RoundTrip.antt =====
-- The text form of an event id (internal/sse/id.go).
use authstunt.Prelude.{
  ℕ, zero, suc, ◌+◌, ◌-◌, ◌*◌, ◌/◌, ◌%◌, ◌^◌, ◌≤◌, ◌<◌, ◌≡◌, ◌≢◌, refl, ◌∙◌, Text, true, none, some,
  [], ◌∷◌, ◌++◌, ltb, inl, inr, Bool-cases, arith, ap, subst, All,
}
use mathlib.Core.List.{append-nil}
use authstunt.Sse.Id.{
  EventId, dash, digits, format_int, string, cut_dash, is_digit, all_digits, decimal, max_int64,
  in_range, parse_id_part, parse_parts, parse_event_id,
}

decimal-append : (n c : ℕ) (s : Text) → decimal n (s ++ (c ∷ [])) ≡ decimal n s * 10 + (c - b'0')
unfolding decimal
decimal-append n c [] = refl
decimal-append n c (d ∷ s) = decimal-append (n * 10 + (d - b'0')) c s

decimal-digits : (fuel n : ℕ) → n < 10 ^ fuel → decimal 0 (digits fuel n) ≡ n
unfolding digits decimal
decimal-digits zero n h = grind arith
decimal-digits (suc fuel) n h = elim (Bool-cases (ltb n 10)) [
  | inl e ↦ rw e (omega arith)
  | inr e ↦
      let tenth : n / 10 < 10 ^ fuel = grind arith in
      rw
        (
          e,
          decimal-append 0 (b'0' + n % 10) (digits fuel (n / 10)),
          decimal-digits fuel (n / 10) tenth,
        )
        (omega arith)
]

IsDigits : Text → Type 0
IsDigits = All (λ c. is_digit c ≡ true)

append-IsDigits : (s t : Text) → IsDigits s → IsDigits t → IsDigits (s ++ t)
unfolding IsDigits
append-IsDigits [] t h k = k
append-IsDigits (c ∷ s) t h k = (h.0, append-IsDigits s t h.1 k)

digits-IsDigits : (fuel n : ℕ) → IsDigits (digits fuel n)
unfolding IsDigits digits is_digit
digits-IsDigits zero n = tt
digits-IsDigits (suc fuel) n = elim (Bool-cases (ltb n 10)) [
  | inl e ↦ rw e (ground arith, tt)
  | inr e ↦
      rw e (
        append-IsDigits (digits fuel (n / 10)) _ (digits-IsDigits fuel (n / 10)) (ground arith, tt))
]

all_digits_lem : (s : Text) → IsDigits s → all_digits s ≡ true
unfolding IsDigits all_digits
all_digits_lem [] h = refl
all_digits_lem (c ∷ s) h = rw (h.0, all_digits_lem s h.1) refl

parse_id_part-nonempty : (s : Text) → s ≢ [] → IsDigits s → parse_id_part s ≡ in_range (decimal 0 s)
unfolding parse_id_part
parse_id_part-nonempty [] ne h = absurd (ne refl)
parse_id_part-nonempty (c ∷ s) ne h = rw (all_digits_lem (c ∷ s) h) refl

append-ne : (s : Text) (c : ℕ) → s ++ (c ∷ []) ≢ []
append-ne [] c h = cc
append-ne (d ∷ s) c h = cc

digits-ne : (fuel n : ℕ) → digits (suc fuel) n ≢ []
unfolding digits
digits-ne fuel n h = elim (Bool-cases (ltb n 10)) [
  | inl e ↦ ground arith
  | inr e ↦ grind (arith, append-ne (digits fuel (n / 10)) (b'0' + n % 10))
]

parse_id_part-format_int : (n : ℕ) → n ≤ max_int64 → parse_id_part (format_int n) ≡ some n
unfolding format_int in_range
parse_id_part-format_int n h =
    rw
      (
        parse_id_part-nonempty (digits 19 n) (digits-ne 18 n) (digits-IsDigits 19 n),
        decimal-digits 19 n (omega arith),
      )
      (ground arith)

cut_dash-append : (s t : Text) → IsDigits s → cut_dash (s ++ (dash ∷ t)) ≡ some (s, t)
unfolding cut_dash IsDigits is_digit
cut_dash-append [] t h = refl
cut_dash-append (c ∷ s) t h = rw (cut_dash-append s t h.1) (ground arith)

format_int-IsDigits : (n : ℕ) → IsDigits (format_int n)
unfolding format_int
format_int-IsDigits n = digits-IsDigits 19 n

parse_event_id-cut :
    (s gen seq : Text) → cut_dash s ≡ some (gen, seq) → parse_event_id s ≡ parse_parts gen seq
unfolding parse_event_id
parse_event_id-cut s gen seq e = ap (λ o. elim o [ none ↦ none | some (g, n) ↦ parse_parts g n ]) e

parse_parts_lem :
    (gen seq : Text) (g n : ℕ)
    → parse_id_part gen ≡ some g
    → parse_id_part seq ≡ some n
    → parse_parts gen seq ≡ some (record { generation = g; seq = n })
unfolding parse_parts
parse_parts_lem gen seq g n h k =
    ap
      (λ o. elim o [
        | none ↦ none
        | some i ↦ elim (parse_id_part seq) [
          | none ↦ none
          | some j ↦ some (record { generation = i; seq = j })
        ]
      ])
      h
    ∙ ap (λ o. elim o [ none ↦ none | some j ↦ some (record { generation = g; seq = j }) ]) k

-- Where both numbers fit in an int64, an event id is read back from its text form.
pub parse_event_id-string :
    (id : EventId)
    → id.generation ≤ max_int64
    → id.seq ≤ max_int64
    → parse_event_id (string id) ≡ some id
unfolding string
parse_event_id-string id h k =
    parse_event_id-cut _ _ _ (
      cut_dash-append (format_int id.generation) (format_int id.seq)
        (format_int-IsDigits id.generation))
    ∙ parse_parts_lem _ _ id.generation id.seq (parse_id_part-format_int id.generation h)
        (parse_id_part-format_int id.seq k)

-- The bytes of an id are dashes and digits.
NoneBelow : Text → Type 0
NoneBelow = All (λ c. dash ≤ c)

digits-NoneBelow : (s t : Text) → IsDigits s → NoneBelow t → NoneBelow (s ++ t)
unfolding IsDigits NoneBelow is_digit
digits-NoneBelow [] t h k = k
digits-NoneBelow (c ∷ s) t h k = (ground (arith, h.0), digits-NoneBelow s t h.1 k)

pub string-All : (id : EventId) → All (λ c. dash ≤ c) (string id)
unfolding string NoneBelow
string-All id = digits-NoneBelow (format_int id.generation) _ (format_int-IsDigits id.generation) (
  omega arith,
  subst NoneBelow (append-nil (format_int id.seq))
      (digits-NoneBelow (format_int id.seq) [] (format_int-IsDigits id.seq) tt),
)
