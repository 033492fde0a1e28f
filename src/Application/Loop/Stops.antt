-- ===== src/Application/Loop/Stops.antt =====
-- Stop and Status.
use bancod.Prelude.{◌≡◌, refl, ◌↔◌, Bool, true, false, List, Option, Bytes, arith}
use mathlib.Core.List.{Perm}
use bancod.Solver.Run.{returned, Exit}
use bancod.Solver.Run.Dispatch.{returned_runs-solve}
use bancod.Application.Loop.{
  Routine, unborn, in_run, cleared, closed_done, stop_returned, ServiceState, new_service, status,
  ServiceSteps,
}
use bancod.Application.Loop.Runs.{Steps-run}
use bancod.Application.Loop.Life.{IsSound, steps-IsSound, returned_of}

module _ {P X T : Type 0} (decode : Bytes → Option X) (has_stop : Bool) (plugins : List P)
    (has_log : Bool) (s : ServiceState P X T) where
  -- When Stop has returned after a Start, Run has returned, every Solve that was dispatched has
  -- run, once, and Status says that Run is not active.
  pub stopped_service-is_settled :
      ServiceSteps decode has_stop plugins has_log new_service s
      → s.stopping ≡ stop_returned
      → s.started ≡ true
      → ((r : Exit) × (s.run.phase ≡ returned r))
        × Perm s.run.dispatched s.run.solved
        × (status s ≡ false)
  unfolding status
  stopped_service-is_settled steps n b =
      let sound = steps-IsSound steps in
      let (off, started, over) = sound.finished (sound.stopped n b) in
      let (r, e) = returned_of s.run.phase over in
      ((r, e), returned_runs-solve plugins has_log s.run r (Steps-run steps) e, off)

  running_iff :
      (r : Routine) → s.routine ≡ r → IsSound s → (s.running ≡ true) ↔ (s.routine ≡ in_run)
  running_iff unborn e sound = ground (arith, sound.idle e)
  running_iff in_run e sound = ground (arith, sound.active e)
  running_iff cleared e sound = ground (arith, sound.passed e)
  running_iff closed_done e sound = ground (arith, sound.finished e)

  -- Status says that Run is active exactly from Start on until Run has returned.
  pub status_iff :
      ServiceSteps decode has_stop plugins has_log new_service s
      → (status s ≡ true) ↔ (s.routine ≡ in_run)
  unfolding status
  status_iff steps = running_iff s.routine refl (steps-IsSound steps)
