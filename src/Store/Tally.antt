-- ===== src/Store/Tally.antt =====
-- The tally of the rows of a claim.
use authstunt.Prelude.{
  ℕ, suc, ◌+◌, ◌≡◌, Bool, true, false, List, [], ◌∷◌, length, if◌then◌else◌, select, arith,
}
use authstunt.Store.Claims.{
  Candidate, Rejections, no_rejections, Row, Verdict, tally, keep, candidates_of, rejections_of,
  sift,
}

-- The rows that were counted and are neither quarantined nor candidates.
abbrev pub rejected : Rejections → ℕ
rejected r = r.suspect + r.already_claimed + r.stale + r.extraction_fail + r.pending

abbrev pub is_quarantined : Verdict → Bool
is_quarantined Verdict.quarantined = true
is_quarantined _ = false

abbrev Balanced : (held_back taken : ℕ) → Rejections → Rejections → ℕ → Type 0
Balanced held_back taken r r' rows =
    (r'.bindings ≡ r.bindings + rows) × (held_back + taken + rejected r' ≡ rejected r + rows)

-- One more row.
tally-Balanced :
    (w : Verdict) (row : Row) (n : ℕ) (r r' : Rejections) (qs : List Row) (cs : List Candidate)
    → Balanced (length qs) (length cs) (tally w r) r' n
    → Balanced
        (length (if is_quarantined w then row ∷ qs else qs))
        (length (keep w row cs))
        r
        r'
        (suc n)
unfolding tally keep
tally-Balanced Verdict.quarantined row n r r' qs cs h = (omega (arith, h.0), omega (arith, h.1))
tally-Balanced Verdict.suspect row n r r' qs cs h = (omega (arith, h.0), omega (arith, h.1))
tally-Balanced Verdict.already_claimed row n r r' qs cs h = (omega (arith, h.0), omega (arith, h.1))
tally-Balanced Verdict.stale row n r r' qs cs h = (omega (arith, h.0), omega (arith, h.1))
tally-Balanced Verdict.extraction_fail row n r r' qs cs h = (omega (arith, h.0), omega (arith, h.1))
tally-Balanced Verdict.pending row n r r' qs cs h = (omega (arith, h.0), omega (arith, h.1))
tally-Balanced (Verdict.usable json) row n r r' qs cs h = (omega (arith, h.0), omega (arith, h.1))

rejections_of-Balanced :
    (verdict : Row → Verdict) (rows : List Row) (r : Rejections)
    → Balanced
        (length (select (λ row. is_quarantined (verdict row)) rows))
        (length (candidates_of verdict rows))
        r
        (rejections_of verdict rows r)
        (length rows)
unfolding candidates_of rejections_of select
rejections_of-Balanced verdict [] r = (omega arith, omega arith)
rejections_of-Balanced verdict (row ∷ rows) r =
    tally-Balanced (verdict row) row (length rows) r
      (rejections_of verdict rows (tally (verdict row) r)) _ _
      (rejections_of-Balanced verdict rows (tally (verdict row) r))

-- Every row of the join is counted exactly once: as quarantined, as a candidate, or under one of the
-- five reasons for a rejection; and the count of bindings is the number of rows.
pub sift-Balanced :
    (verdict : Row → Verdict) (rows : List Row)
    → ((sift verdict rows).1.bindings ≡ length rows)
      × (length (select (λ row. is_quarantined (verdict row)) rows)
            + length (sift verdict rows).0
            + rejected (sift verdict rows).1
          ≡ length rows)
sift-Balanced verdict rows =
    let h = rejections_of-Balanced verdict rows no_rejections in
    (omega (arith, h.0), omega (arith, h.1))
