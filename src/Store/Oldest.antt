-- ===== src/Store/Oldest.antt =====
-- The order of the candidates.
use authstunt.Prelude.{
  Ascending, sort_by-Ascending, take-Ascending, ℕ, ◌≡◌, ◌≤◌, Text, Bool, true, false, Option, List,
  [], ◌∷◌, ltb, if◌then◌else◌, sort_by, take, All, arith,
}
use authstunt.Store.Claims.{
  Candidate, CandidateFilter, Row, Verdict, judge, keep, candidates_of, sift, join_rows,
  received_before, limit_rows, rows_of,
}
use authstunt.Store.Monad.{Db}

abbrev row_time : Row → ℕ
row_time row = row.message.received_at

received_first : (x y : Row) → received_before x y ≡ true → row_time x ≤ row_time y
unfolding received_before
received_first x y h = ground arith

received_later : (x y : Row) → received_before x y ≡ false → row_time y ≤ row_time x
unfolding received_before
received_later x y h = ground arith

rows_of-Ascending : (f : CandidateFilter) (db : Db) → Ascending row_time (rows_of f db)
unfolding rows_of limit_rows
rows_of-Ascending f db = split (ltb 0 f.limit)
  where
    sorted :
        Ascending row_time (sort_by received_before (join_rows db.messages f.lease_id db.bindings))
    sorted = sort_by-Ascending row_time received_before received_first received_later _

    split :
        (b : Bool)
        → Ascending row_time (
            if b
            then take f.limit
                (sort_by received_before (join_rows db.messages f.lease_id db.bindings))
            else sort_by received_before (join_rows db.messages f.lease_id db.bindings))
    split true = take-Ascending row_time f.limit _ sorted
    split false = sorted

module _ (verdict : Row → Verdict) where
  keep-All :
      (P : ℕ → Type 0) (w : Verdict) (row : Row) (cs : List Candidate)
      → P (row_time row)
      → All (λ c. P c.received_at) cs
      → All (λ c. P c.received_at) (keep w row cs)
  unfolding keep
  keep-All P (Verdict.usable json) row cs p h = (p, h)
  keep-All P Verdict.quarantined row cs p h = h
  keep-All P Verdict.suspect row cs p h = h
  keep-All P Verdict.already_claimed row cs p h = h
  keep-All P Verdict.stale row cs p h = h
  keep-All P Verdict.extraction_fail row cs p h = h
  keep-All P Verdict.pending row cs p h = h

  candidates_of-All :
      (P : ℕ → Type 0) (rows : List Row)
      → All (λ row. P (row_time row)) rows
      → All (λ c. P c.received_at) (candidates_of verdict rows)
  unfolding candidates_of
  candidates_of-All P [] h = tt
  candidates_of-All P (row ∷ rows) h =
      keep-All P (verdict row) row _ h.0 (candidates_of-All P rows h.1)

  keep-Ascending :
      (w : Verdict) (row : Row) (cs : List Candidate)
      → All (λ c. row_time row ≤ c.received_at) cs
      → Ascending (λ c. c.received_at) cs
      → Ascending (λ c. c.received_at) (keep w row cs)
  unfolding keep
  keep-Ascending (Verdict.usable json) row cs a h = (a, h)
  keep-Ascending Verdict.quarantined row cs a h = h
  keep-Ascending Verdict.suspect row cs a h = h
  keep-Ascending Verdict.already_claimed row cs a h = h
  keep-Ascending Verdict.stale row cs a h = h
  keep-Ascending Verdict.extraction_fail row cs a h = h
  keep-Ascending Verdict.pending row cs a h = h

  candidates_of-Ascending :
      (rows : List Row)
      → Ascending row_time rows
      → Ascending (λ c. c.received_at) (candidates_of verdict rows)
  unfolding candidates_of
  candidates_of-Ascending [] h = tt
  candidates_of-Ascending (row ∷ rows) h =
      keep-Ascending (verdict row) row _ (candidates_of-All (λ t. row_time row ≤ t) rows h.0)
        (candidates_of-Ascending rows h.1)

-- The candidates of a claim come in the order in which their messages were received.
pub candidates-Ascending :
    (open_sealed : Text → Option Text) (db : Db) (f : CandidateFilter)
    → Ascending (λ c. c.received_at) (sift (judge open_sealed db.claims f) (rows_of f db)).0
candidates-Ascending open_sealed db f = candidates_of-Ascending _ _ (rows_of-Ascending f db)
