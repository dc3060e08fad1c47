-- ===== src/Extract/Otp.antt =====
-- internal/extract/otp.go: the codes of a mail, ranked, and the choice of the best in extract.go. The text
-- is the folded one, and its URLs are ranges.

pub mod Window
pub mod Ranking
pub mod Runs
pub mod Words
use authstunt.Prelude.{
  ℕ, zero, suc, ◌+◌, ◌-◌, ◌*◌, ◌≤◌, Text, Bool, true, false, Option, none, some, List, [], ◌∷◌,
  ◌++◌, length, get_elem?, take, drop, any, sort_by, not, ltb, leb, ◌==◌, ◌&&◌, ◌||◌, if◌then◌else◌,
  text_eq,
}
use authstunt.Extract.Spans.{Span, merge_spans, search_index, in_spans}

-- Of the packages `unicode/utf8` and `unicode`: the first rune of a text and the number of its bytes, its
-- last rune, and the classes of runes.
pub record Runes : Type 0 where
  pub decode_rune : Text → ℕ × ℕ
  pub decode_last_rune : Text → ℕ
  pub is_letter : ℕ → Bool
  pub is_digit : ℕ → Bool

abbrev pub near_window : ℕ
near_window = 40

abbrev pub medium_window : ℕ
medium_window = 80

abbrev pub far_window : ℕ
far_window = 160

abbrev pub leading_window : ℕ
leading_window = 24

-- A score is held 120 above the source's, so that the penalty of a year leaves a number.
abbrev pub no_score : ℕ
no_score = 120

unfoldable pub is_ascii_digit : ℕ → Bool
is_ascii_digit c = leb b'0' c && leb c b'9'

unfoldable pub is_word_rune : Runes → ℕ → Bool
is_word_rune u r = u.is_letter r || u.is_digit r

unfoldable pub is_word_boundary : Runes → Text → ℕ → ℕ → Bool
unfolding is_word_rune
is_word_boundary u hay start end =
    if ltb 0 start && is_word_rune u (u.decode_last_rune (take start hay))
    then false
    else if ltb end (length hay) && is_word_rune u (u.decode_rune (drop end hay)).0
    then false
    else true

-- How many digits the text begins with.
unfoldable pub leading_digits : Text → ℕ
unfolding is_ascii_digit
leading_digits [] = 0
leading_digits (c ∷ s) = if is_ascii_digit c then suc (leading_digits s) else 0

-- The loop of `digitRuns` from an index on; every round moves on by a byte at least.
unfoldable pub digit_runs_from : ℕ → Runes → Text → ℕ → List Span
unfolding leading_digits is_word_boundary
digit_runs_from zero u s i = []
digit_runs_from (suc fuel) u s i =
    let digits = leading_digits (drop i s) in
    let after_rune = digit_runs_from fuel u s (i + (u.decode_rune (drop i s)).1) in
    let after_run = digit_runs_from fuel u s (i + digits) in
    if leb (length s) i
    then []
    else if digits == 0
    then after_rune
    else if is_word_boundary u s i (i + digits)
    then record { start = i; stop = i + digits } ∷ after_run
    else after_run

unfoldable pub digit_runs : Runes → Text → List Span
unfolding digit_runs_from
digit_runs u s = digit_runs_from (length s) u s 0

unfoldable pub looks_like_year : Text → Bool
looks_like_year (a ∷ b ∷ c ∷ d ∷ []) =
    let n = ((a - b'0') * 10 + (b - b'0')) * 100 + ((c - b'0') * 10 + (d - b'0')) in
    leb 1900 n && leb n 2099
looks_like_year _ = false

-- What the loop of `scoreCandidate` knows of the words around a run.
pub record Near : Type 0 where
  pub nearest : Option ℕ
  pub leading : Bool

unfoldable pub nearer : Option ℕ → ℕ → Option ℕ
nearer none distance = some distance
nearer (some nearest) distance = if ltb distance nearest then some distance else some nearest

-- One word.
unfoldable pub see : Span → Near → Span → Near
unfolding nearer
see digits n w =
    if leb w.stop digits.start
    then record {
      nearest = nearer n.nearest (digits.start - w.stop);
      leading = n.leading || leb (digits.start - w.stop) leading_window;
    }
    else if leb digits.stop w.start
    then record n { nearest = nearer n.nearest (w.start - digits.stop) }
    else record n { nearest = nearer n.nearest 0 }

-- Up to the first word that begins too far behind the run.
unfoldable pub look : Span → Near → List Span → Near
unfolding see
look digits n [] = n
look digits n (w ∷ words) =
    let rest = look digits (see digits n w) words in
    if ltb (digits.stop + far_window) w.start then n else rest

unfoldable pub near_points : Option ℕ → ℕ
near_points none = 0
near_points (some nearest) =
    if leb nearest near_window
    then 100
    else if leb nearest medium_window
    then 60
    else if leb nearest far_window
    then 30
    else 0

unfoldable pub points : Near → ℕ
unfolding near_points
points n = near_points n.nearest + (if n.leading then 15 else 0)

unfoldable pub length_points : ℕ → ℕ
length_points n = if n == 6 then 10 else if n == 8 then 4 else 0

unfoldable pub year_penalty : Text → ℕ
unfolding looks_like_year
year_penalty code = if looks_like_year code then 120 else 0

-- The first word that can reach the run.
unfoldable pub reaches_from : ℕ → Span → List Span → ℕ → Bool
reaches_from longest digits words i = elim (get_elem? words i) [
  | none ↦ false
  | some w ↦ leb digits.start (w.start + far_window + longest)
]

abbrev pub unseen : Near
unseen = record { nearest = none; leading = false }

unfoldable pub total : Text → Near → ℕ
unfolding points length_points year_penalty
total code n = no_score + points n + length_points (length code) - year_penalty code

-- `longest` is the length of the longest context word.
unfoldable pub score_candidate : ℕ → Text → Span → List Span → ℕ
unfolding reaches_from look total
score_candidate longest code digits words =
    let from = search_index (length words) (reaches_from longest digits words) in
    total code (look digits unseen (drop from words))

pub record Candidate : Type 0 where
  pub code : Text
  pub pos : ℕ
  pub score : ℕ

unfoldable pub code_at : Text → Span → Text
code_at folded digits = take (digits.stop - digits.start) (drop digits.start folded)

-- The runs of four to eight digits outside the excluded ranges.
unfoldable pub find_candidates : ℕ → Text → List Span → List Span → List Span → List Candidate
unfolding score_candidate code_at
find_candidates longest folded words exclude [] = []
find_candidates longest folded words exclude (digits ∷ runs) =
    let rest = find_candidates longest folded words exclude runs in
    let code = code_at folded digits in
    if ltb (length code) 4
    then rest
    else if ltb 8 (length code)
    then rest
    else if in_spans exclude digits
    then rest
    else record {
      code = code;
      pos = digits.start;
      score = score_candidate longest code digits words;
    }
      ∷ rest

unfoldable pub ranked_before : Candidate → Candidate → Bool
ranked_before a b = ltb b.score a.score || (a.score == b.score && ltb a.pos b.pos)

-- The first occurrence of each code, with the codes seen so far.
unfoldable pub distinct_codes : List Text → List Candidate → List Candidate
unfolding any text_eq
distinct_codes seen [] = []
distinct_codes seen (c ∷ found) =
    let fresh = distinct_codes (c.code ∷ seen) found in
    let rest = distinct_codes seen found in if any (text_eq c.code) seen then rest else c ∷ fresh

unfoldable pub begins_before : Span → Span → Bool
begins_before a b = ltb a.start b.start

-- The longest entry of a list of words.
unfoldable pub longest_word : List Text → ℕ
longest_word [] = 0
longest_word (w ∷ words) =
    let rest = longest_word words in if ltb rest (length w) then length w else rest

unfoldable pub has_prefix : Text → Text → Bool
has_prefix s [] = true
has_prefix [] (d ∷ t) = false
has_prefix (c ∷ s) (d ∷ t) = c == d && has_prefix s t

-- `strings.Index`.
unfoldable pub index_of : Text → Text → Option ℕ
unfolding has_prefix
index_of [] w = if has_prefix [] w then some 0 else none
index_of (c ∷ s) w =
    let rest = index_of s w in
    if has_prefix (c ∷ s) w then some 0 else elim rest [ none ↦ none | some i ↦ some (suc i) ]

-- The inner loop of `findWords`; every round goes on behind the start that it found.
unfoldable pub find_word : ℕ → Runes → Text → Text → ℕ → List Span
unfolding is_word_boundary index_of
find_word zero u hay w from = []
find_word (suc fuel) u hay w from = elim (index_of (drop from hay) w) [
  | none ↦ []
  | some i ↦
      if is_word_boundary u hay (from + i) (from + i + length w)
      then record { start = from + i; stop = from + i + length w }
        ∷ find_word fuel u hay w (from + i + 1)
      else find_word fuel u hay w (from + i + 1)
]

unfoldable pub find_words : Runes → Text → List Text → List Span
unfolding find_word
find_words u hay [] = []
find_words u hay (w ∷ words) = find_word (suc (length hay)) u hay w 0 ++ find_words u hay words

-- `context` are the context words.
unfoldable pub otp_candidates : Runes → List Text → Text → List Span → List Candidate
unfolding find_candidates ranked_before distinct_codes sort_by begins_before digit_runs merge_spans
    longest_word find_words
otp_candidates u context folded exclude = distinct_codes [] (
    sort_by ranked_before (
      find_candidates (longest_word context) folded
        (sort_by begins_before (find_words u folded context)) (merge_spans exclude)
        (digit_runs u folded)))

-- The loop of `Extract` over the candidates, with the best so far.
unfoldable pub choose : Text → List Candidate → Text
choose best [] = best
choose (b ∷ best) (c ∷ cs) = choose (b ∷ best) cs
choose [] (c ∷ cs) = if ltb no_score c.score then choose c.code cs else choose [] cs
