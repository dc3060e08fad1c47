-- ===== src/Tests/Codes.antt =====
-- The text "code 4821, 77" with one excluded range.
use authstunt.Prelude.{sort_by, ◌≡◌, Text, false, [], ◌∷◌, any, All, arith}
use authstunt.Extract.Spans.{Span, merge_spans, in_spans}
use authstunt.Extract.Merge.{overlaps}
use authstunt.Extract.Cover.{in_spans-overlaps}
use authstunt.Extract.Otp.{
  longest_word, find_words, begins_before, Runes, otp_candidates, choose, unseen, total,
  score_candidate, digit_runs_from,
}
use authstunt.Extract.Otp.Window.{look_all}
use authstunt.Extract.Otp.Words.{score_candidate-find_words}
use authstunt.Extract.Otp.Ranking.{
  Standing, Unrepeated, Best, otp_candidates-Standing, choose-Highest,
}
use authstunt.Extract.Otp.Runs.{digit_runs_from-enough}

-- Every byte is a rune, and none is a letter.
abbrev plain : Runes
plain = record {
  decode_rune = λ s. elim s [ [] ↦ (0, 0) | c ∷ t ↦ (c, 1) ];
  decode_last_rune = λ s. 0;
  is_letter = λ r. false;
  is_digit = λ r. false;
}

abbrev text : Text
text = b'c' ∷ b'o' ∷ b'd' ∷ b'e' ∷ b' ' ∷ b'4' ∷ b'8' ∷ b'2' ∷ b'1' ∷ b',' ∷ b' ' ∷ b'7' ∷ b'7' ∷ []

abbrev label : Text
label = b'c' ∷ b'o' ∷ b'd' ∷ b'e' ∷ []

abbrev word : Span
word = record { start = 0; stop = 4 }

abbrev run : Span
run = record { start = 5; stop = 9 }

abbrev run_text : Text
run_text = b'4' ∷ b'8' ∷ b'2' ∷ b'1' ∷ []

abbrev url : Span
url = record { start = 10; stop = 13 }

in_spans-overlaps_example :
    in_spans (merge_spans (url ∷ word ∷ [])) run ≡ any (overlaps run) (url ∷ word ∷ [])
in_spans-overlaps_example =
    in_spans-overlaps run (url ∷ word ∷ []) (omega arith) (omega arith, (omega arith, tt))

score_candidate-find_words_example :
    score_candidate
      (longest_word (label ∷ []))
      run_text
      run
      (sort_by begins_before (find_words plain text (label ∷ [])))
    ≡ total run_text
        (look_all run unseen (sort_by begins_before (find_words plain text (label ∷ []))))
score_candidate-find_words_example =
    score_candidate-find_words plain (label ∷ []) text run_text run (omega arith)

otp_candidates-Standing_example :
    All (Standing text (url ∷ [])) (otp_candidates plain (label ∷ []) text (url ∷ []))
    × Unrepeated [] (otp_candidates plain (label ∷ []) text (url ∷ []))
otp_candidates-Standing_example =
    otp_candidates-Standing plain (label ∷ []) text (url ∷ []) (omega arith, tt)

choose-Highest_example :
    Best
      (otp_candidates plain (label ∷ []) text (url ∷ []))
      (choose [] (otp_candidates plain (label ∷ []) text (url ∷ [])))
choose-Highest_example = choose-Highest plain (label ∷ []) text (url ∷ []) (omega arith, tt)

digit_runs_from-enough_example : digit_runs_from 13 plain text 0 ≡ digit_runs_from 20 plain text 0
digit_runs_from-enough_example =
    digit_runs_from-enough plain text (λ c s. omega arith) 13 20 0 (omega arith) (omega arith)
