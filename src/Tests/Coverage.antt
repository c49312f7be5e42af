-- ===== src/Tests/Coverage.antt =====
-- The results of four mutants over two stages: one is red at both, one at the second, one at none, and one did
-- not build.
use binutils_mcs.Base.{ℕ, ◌≡◌, refl, true, List, [], ◌∷◌, ◌&&◌}
use binutils_mcs.Base.Bytes.{codes}
use binutils_mcs.Base.Text.{Text}
use binutils_mcs.Base.Dict.{Dict, get, put}
use binutils_mcs.Mutation.Coverage.{Row, Results, ids_at, tables}
use binutils_mcs.Mutation.Coverage.Scored.{caught, fails, fails_nowhere_but, is_counted}
use binutils_mcs.Mutation.Coverage.Kills.{tables-caught}

abbrev stages : List Text
stages = codes "bits" ∷ codes "check" ∷ []

abbrev row : Text → Text → Dict ℕ → Row
row i st rcs = record { id = i; status = st; stages = rcs }

abbrev results : Results
results = record {
  all_stages = true;
  stages = stages;
  rows =
      row (codes "a") (codes "killed") ((codes "bits", 1) ∷ (codes "check", 124) ∷ [])
      ∷ row (codes "b") (codes "killed") ((codes "bits", 0) ∷ (codes "check", 2) ∷ [])
      ∷ row (codes "c") (codes "survived") ((codes "bits", 0) ∷ (codes "check", 0) ∷ [])
      ∷ row (codes "d") (codes "nobuild") []
      ∷ [];
}

check_kills : ids_at (codes "check") (tables results).kills ≡ codes "a" ∷ codes "b" ∷ []
unfolding tables get put
check_kills = refl

check_first : (tables results).first ≡ (codes "bits", 1) ∷ (codes "check", 1) ∷ []
unfolding tables get put
check_first = refl

check_tmo : (tables results).tmo ≡ (codes "bits", 0) ∷ (codes "check", 1) ∷ []
unfolding tables get put
check_tmo = refl

tables-caught_example :
    (ids_at (codes "check") (tables results).kills
      ≡ caught (λ r. is_counted stages r && fails r (codes "check")) results.rows)
    × (ids_at (codes "check") (tables results).uniq
        ≡ caught
            (λ r.
              is_counted stages r
              && (fails r (codes "check") && fails_nowhere_but (codes "check") stages r))
            results.rows)
tables-caught_example =
    tables-caught results (codes "check") (refl, (refl, tt)) (refl, (refl, (refl, (refl, tt)))) refl
