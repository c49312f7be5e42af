-- ===== src/Tests/Report.antt =====
-- Two runs of three mutants: one is caught newly, one is lost, one is killed in both.
use binutils_mcs.Base.{◌≡◌, refl, ◌&&◌, List, [], ◌∷◌}
use binutils_mcs.Base.Bytes.{codes}
use binutils_mcs.Base.Text.{Text}
use binutils_mcs.Base.Dict.{member, put}
use binutils_mcs.Mutation.Report.{
  Entry, load, load_from, is_killed, is_survived, was, moved, newly, lost,
}
use binutils_mcs.Mutation.Report.Compared.{newly-lost}

abbrev entry : Text → Text → Text → Entry
entry i s k = record { id = i; status = s; killer = k }

abbrev before : List Entry
before =
    entry (codes "a") (codes "survived") []
    ∷ entry (codes "b") (codes "killed") (codes "isa")
    ∷ entry (codes "c") (codes "killed") (codes "isa")
    ∷ []

abbrev after : List Entry
after =
    entry (codes "a") (codes "killed") (codes "guard")
    ∷ entry (codes "b") (codes "survived") []
    ∷ entry (codes "c") (codes "killed") (codes "isa")
    ∷ []

newly_run : newly (load before) (load after) ≡ codes "a" ∷ []
unfolding load_from put moved
newly_run = refl

lost_run : lost (load before) (load after) ≡ codes "b" ∷ []
unfolding load_from put moved
lost_run = refl

newly-lost_example :
    (member (codes "a") (newly (load before) (load after))
      ≡ (was is_killed (load after) (codes "a") && was is_survived (load before) (codes "a")))
    × (member (codes "a") (lost (load before) (load after))
        ≡ (was is_survived (load after) (codes "a") && was is_killed (load before) (codes "a")))
newly-lost_example = newly-lost before after (codes "a")
