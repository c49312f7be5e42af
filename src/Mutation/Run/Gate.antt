-- ===== src/Mutation/Run/Gate.antt =====
-- What the gate concludes, with the stages that are left out and with all of them run.
use binutils_mcs.Base.{
  ℕ, ◌≡◌, refl, Bool, true, false, not, Option, none, some, List, [], ◌∷◌, ◌==◌, Bool-cases, inl,
  inr, if◌then◌else◌,
}
use binutils_mcs.Base.Text.{Text}
use binutils_mcs.Base.Dict.{put}
use binutils_mcs.Mutation.Run.{Files, gate_from, gate}

module _ (World : Type 0) (make_stage : Text → Files → World → World × (ℕ × Text)) where
  -- Every stage run once, one behind the other, whatever the ones before it gave.
  abbrev pub verdicts : List Text → Files → World → List (Text × (ℕ × Text))
  verdicts [] t w = []
  verdicts (st ∷ sts) t w = let (w', r) = make_stage st t w in (st, r) ∷ verdicts sts t w'

abbrev pub first_red : List (Text × (ℕ × Text)) → Option Text
first_red [] = none
first_red ((st, (rc, log)) ∷ vs) = if not (rc == 0) then some st else first_red vs

abbrev pub first_log : List (Text × (ℕ × Text)) → Text
first_log [] = []
first_log ((st, (rc, log)) ∷ vs) = if not (rc == 0) then log else first_log vs

abbrev pub record_all : List (Text × (ℕ × Text)) → List (Text × ℕ) → List (Text × ℕ)
record_all [] rcs = rcs
record_all ((st, (rc, log)) ∷ vs) rcs = record_all vs (put st rc rcs)

module _ (World : Type 0) (make_rebuild : Files → World → World × (ℕ × Text))
    (make_stage : Text → Files → World → World × (ℕ × Text)) where
  gate_from-kept :
      (every : Bool) (t : Files) (sts : List Text) (s : Text) (rcs : List (Text × ℕ)) (log : Text)
      (w : World)
      → let g = gate_from World make_rebuild make_stage every t sts (some s) rcs log w in
        (g.first ≡ some s)
        × (g.flog ≡ log)
        × (g.rcs ≡ record_all (verdicts World make_stage sts t w) rcs)
  unfolding gate_from
  gate_from-kept every t [] s rcs log w = (refl, refl, refl)
  gate_from-kept every t (st ∷ sts) s rcs log w =
      let (w', (rc, l)) = make_stage st t w in gate_from-kept every t sts s (put st rc rcs) log w'

  gate_from-first :
      (every : Bool) (t : Files) (sts : List Text) (rcs : List (Text × ℕ)) (w : World)
      → let g = gate_from World make_rebuild make_stage every t sts none rcs [] w in
        let vs = verdicts World make_stage sts t w in
        (g.first ≡ first_red vs) × (g.flog ≡ first_log vs)
  unfolding gate_from
  gate_from-first every t [] rcs w = (refl, refl)
  gate_from-first every t (st ∷ sts) rcs w =
      let (w', (rc, log)) = make_stage st t w in
      elim (Bool-cases (rc == 0)) [
        | inl green ↦ rw (green, gate_from) (gate_from-first every t sts (put st rc rcs) w')
        | inr red ↦
            elim every
              as (λ k.
                let g = gate_from World make_rebuild make_stage k t (st ∷ sts) none rcs [] w in
                let vs = verdicts World make_stage (st ∷ sts) t w in
                (g.first ≡ first_red vs) × (g.flog ≡ first_log vs)) [
                  | true ↦
                      rw (red, gate_from)
                        (let k = gate_from-kept true t sts st (put st rc rcs) log w' in (k.0, k.1))
                  | false ↦ rw (red, gate_from) (refl, refl)
                ]
      ]

  gate_every-rcs :
      (t : Files) (sts : List Text) (rcs : List (Text × ℕ)) (w : World)
      → (gate_from World make_rebuild make_stage true t sts none rcs [] w).rcs
        ≡ record_all (verdicts World make_stage sts t w) rcs
  unfolding gate_from
  gate_every-rcs t [] rcs w = refl
  gate_every-rcs t (st ∷ sts) rcs w =
      let (w', (rc, log)) = make_stage st t w in
      elim (Bool-cases (rc == 0)) [
        | inl green ↦ rw (green, gate_from) (gate_every-rcs t sts (put st rc rcs) w')
        | inr red ↦
            rw (red, gate_from) (let k = gate_from-kept true t sts st (put st rc rcs) log w' in k.2)
      ]

  -- In either mode the gate names the first stage that is red when all stages are run in order,
  -- with the log of that stage, and none if there is no such stage.
  pub gate-first :
      (every : Bool) (stages : List Text) (t : Files) (w : World)
      → let g = gate World make_rebuild make_stage every stages t w in
        let vs = verdicts World make_stage stages t w in
        (g.first ≡ first_red vs) × (g.flog ≡ first_log vs)
  gate-first every stages t w = gate_from-first every t stages [] w

  -- With `every` set, the gate records the exit codes of all stages, run one behind the other
  -- whatever the ones before them gave.
  pub gate-rcs :
      (stages : List Text) (t : Files) (w : World)
      → (gate World make_rebuild make_stage true stages t w).rcs
        ≡ record_all (verdicts World make_stage stages t w) []
  gate-rcs stages t w = gate_every-rcs t stages [] w
