-- ===== src/Solver/Run/Tests.antt =====
-- A run of two plugins on one transaction: the first matches, the second panics.
use bancod.Prelude.{ℕ, refl, true, List, [], ◌∷◌, some}
use mathlib.Core.List.{Perm}
use bancod.Solver.Run.{
  Outcome, hit, match_panic, Ending, solve_panic, Exit, closed, Phase, selecting, draining,
  returned, Job, RunState, start, receive, match_next, finish, Step, take_tx, stop, ask, all_asked,
  end_job, return_exit, Steps, here, then,
}
use bancod.Solver.Run.Dispatch.{returned_runs-solve}

abbrev plugins : List ℕ
plugins = 1 ∷ 2 ∷ []

abbrev job : Job ℕ ℕ
job = record { plugin = 1; intent = 70 }

-- The states behind each step.
abbrev begun : RunState ℕ ℕ ℕ
begun = start

abbrev received_one : RunState ℕ ℕ ℕ
received_one = receive plugins (some 5) begun

abbrev asked_one : RunState ℕ ℕ ℕ
asked_one = match_next true 5 1 (2 ∷ []) (hit 70) received_one

abbrev asked_two : RunState ℕ ℕ ℕ
asked_two = match_next true 5 2 [] match_panic asked_one

abbrev asked_all : RunState ℕ ℕ ℕ
asked_all = record asked_two { phase = selecting }

abbrev stopped : RunState ℕ ℕ ℕ
stopped = record asked_all { phase = draining closed }

abbrev drained : RunState ℕ ℕ ℕ
drained = finish true solve_panic [] job [] stopped

to_asked_all : Steps plugins true begun asked_all
unfolding start receive match_next bancod.Solver.Run.after_match
to_asked_all =
    then
      (then (then (then here (take_tx (some 5) refl)) (ask 5 1 (2 ∷ []) (hit 70) refl))
        (ask 5 2 [] match_panic refl))
      (all_asked 5 refl)

to_returned : Steps plugins true begun (record drained { phase = returned closed })
unfolding start receive match_next finish bancod.Solver.Run.after_match
to_returned =
    then (then (then to_asked_all (stop closed refl)) (end_job solve_panic [] job [] refl))
      (return_exit closed refl refl)

returned_runs-solve_example : Perm drained.dispatched drained.solved
returned_runs-solve_example =
    returned_runs-solve plugins true (record drained { phase = returned closed }) closed to_returned
      refl
