-- ===== src/Sse/Hub/Payload.antt =====
-- The payload of a frame, split and joined again (internal/sse/hub.go: `writeFrame`).
use authstunt.Prelude.{
  ℕ, ◌≡◌, refl, sym, ap, ◌∙◌, ◌⊎◌, inl, inr, Text, true, false, List, [], ◌∷◌, map, ◌==◌,
  Bool-cases, if_true, if_false, ==_iff, arith,
}
use authstunt.Sse.Hub.{newline, carriage_return, grow, split_lines, trim_cr}
use authstunt.Sse.Hub.Receiver.{join_lines, without_cr, line_end, cr_at_ends}

join_lines-grow : (c : ℕ) (lines : List Text) → join_lines (grow c lines) ≡ c ∷ join_lines lines
unfolding join_lines grow
join_lines-grow c [] = refl
join_lines-grow c (line ∷ []) = refl
join_lines-grow c (line ∷ next ∷ lines) = refl

map-grow :
    (c : ℕ) (lines : List Text)
    → (c == carriage_return) ≡ false
    → map trim_cr (grow c lines) ≡ grow c (map trim_cr lines)
unfolding grow trim_cr
map-grow c [] e = ap (λ l. l ∷ []) (if_false (c == carriage_return) _ _ e)
map-grow c ([] ∷ lines) e = ap (λ l. l ∷ map trim_cr lines) (if_false (c == carriage_return) _ _ e)
map-grow c ((d ∷ line) ∷ lines) e = refl

-- The split has a line at least.
join_lines-break :
    (s : Text)
    → join_lines ([] ∷ map trim_cr (split_lines s))
      ≡ newline ∷ join_lines (map trim_cr (split_lines s))
unfolding join_lines split_lines grow
join_lines-break [] = refl
join_lines-break (c ∷ s) = elim (Bool-cases (c == newline)) [
  | inl e ↦ rw e refl
  | inr e ↦ rw e (grown (split_lines s))
]
  where
    grown :
        (lines : List Text)
        → join_lines ([] ∷ map trim_cr (grow c lines))
          ≡ newline ∷ join_lines (map trim_cr (grow c lines))
    grown [] = refl
    grown (line ∷ lines) = refl

-- A carriage return at the end of a line is dropped.
join_lines-return :
    (s : Text)
    → line_end s ≡ true
    → join_lines (map trim_cr (grow carriage_return (split_lines s)))
      ≡ join_lines (map trim_cr (split_lines s))
unfolding split_lines grow trim_cr
join_lines-return [] h = refl
join_lines-return (c ∷ s) h = rw h refl

ends-tail : (c : ℕ) (s : Text) → cr_at_ends (c ∷ s) ≡ true → cr_at_ends s ≡ true
unfolding cr_at_ends
ends-tail c s h = ground arith

ends-here :
    (c : ℕ) (s : Text)
    → cr_at_ends (c ∷ s) ≡ true
    → (c == carriage_return) ≡ true
    → line_end s ≡ true
unfolding cr_at_ends
ends-here c s h e = ground arith

not_newline : (c : ℕ) → (c == carriage_return) ≡ true → (c == newline) ≡ false
not_newline c e = ground arith

not_return : (c : ℕ) → (c == newline) ≡ true → (c == carriage_return) ≡ false
not_return c e = ground arith

pub join_lines-split_lines :
    (s : Text) → cr_at_ends s ≡ true → join_lines (map trim_cr (split_lines s)) ≡ without_cr s
unfolding split_lines without_cr join_lines trim_cr
join_lines-split_lines [] h = refl
join_lines-split_lines (c ∷ s) h =
    split (join_lines-split_lines s (ends-tail c s h)) (Bool-cases (c == newline))
      (Bool-cases (c == carriage_return))
  where
    split :
        join_lines (map trim_cr (split_lines s)) ≡ without_cr s
        → ((c == newline) ≡ true) ⊎ ((c == newline) ≡ false)
        → ((c == carriage_return) ≡ true) ⊎ ((c == carriage_return) ≡ false)
        → join_lines (map trim_cr (split_lines (c ∷ s))) ≡ without_cr (c ∷ s)
    split rest (inl e) k =
        ap (λ ls. join_lines (map trim_cr ls)) (if_true (c == newline) _ _ e)
        ∙ join_lines-break s
        ∙ ap (λ d. d ∷ join_lines (map trim_cr (split_lines s))) (sym ((==_iff c newline).0 e))
        ∙ ap (◌∷◌ c) rest
        ∙ sym (if_false (c == carriage_return) _ _ (not_return c e))
    split rest (inr e) (inl k) =
        ap (λ ls. join_lines (map trim_cr ls)) (if_false (c == newline) _ _ e)
        ∙ ap (λ d. join_lines (map trim_cr (grow d (split_lines s))))
            ((==_iff c carriage_return).0 k)
        ∙ join_lines-return s (ends-here c s h k)
        ∙ rest
        ∙ sym (if_true (c == carriage_return) _ _ k)
    split rest (inr e) (inr k) =
        ap (λ ls. join_lines (map trim_cr ls)) (if_false (c == newline) _ _ e)
        ∙ ap join_lines (map-grow c (split_lines s) k)
        ∙ join_lines-grow c (map trim_cr (split_lines s))
        ∙ ap (◌∷◌ c) rest
        ∙ sym (if_false (c == carriage_return) _ _ k)
