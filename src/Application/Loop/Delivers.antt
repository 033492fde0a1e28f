-- ===== src/Application/Loop/Delivers.antt =====
-- The stream from end to end: what the service's plugins are asked about.
use bancod.Prelude.{◌≤◌, ◌≡◌, sym, ap, ◌∙◌, Bool, false, List, ◌++◌, Option, none, Bytes, length}
use mathlib.Core.List.{Perm}
use bancod.Solver.Source.{ended}
use bancod.Solver.Source.Accounts.{packets}
use bancod.Solver.Source.Delivered.{Moves-deliver, drained-Moves-deliver}
use bancod.Solver.Run.{selecting, returned, Exit, canceled, closed}
use bancod.Solver.Run.Dispatch.{returned_runs-solve}
use bancod.Solver.Run.Asked.{all_calls, selecting_runs-ask, returned_runs-ask}
use bancod.Application.Loop.{closed_done, no_call, ServiceState, new_service, status, ServiceSteps}
use bancod.Application.Loop.Runs.{Steps-run, Steps-move, Steps-sync}
use bancod.Application.Loop.Life.{IsSound, exit_of, steps-IsSound, returned_of}

module _ {P X T : Type 0} (decode : Bytes → Option X) (has_stop : Bool) (plugins : List P)
    (has_log : Bool) (s : ServiceState P X T) where
  -- Whenever Run is back in select, each plugin has been asked once about each packet of the
  -- events that the stream has given, in their order, but for the last two packets at most.
  pub listening_service-asks :
      ServiceSteps decode has_stop plugins has_log new_service s
      → s.run.phase ≡ selecting
      → (txs : List X) × (rest : List X) × (packets decode s.source.read ≡ txs ++ rest)
        × (length rest ≤ 2)
        × (s.run.asked ≡ all_calls plugins txs)
  listening_service-asks steps e =
      let (rest, split, few) = Moves-deliver decode has_stop s.source (Steps-move steps) in
      (
        s.source.taken,
        rest,
        split,
        few,
        selecting_runs-ask plugins has_log s.run (Steps-run steps) e
            ∙ ap (λ txs. all_calls plugins txs) (Steps-sync steps),
      )

  left_closed_of :
      (r : Exit)
      → s.run.phase ≡ returned r
      → s.source.canceled ≡ false
      → IsSound s
      → (s.source.phase ≡ ended) × (s.source.buffer ≡ none)
  left_closed_of canceled at live sound =
      let done = sound.left_canceled (ap exit_of at) in absurd cc
  left_closed_of closed at live sound = sound.left_closed (ap exit_of at)

  -- Where the run loop has ended though Stop was not called, the stream has ended: each plugin was
  -- asked once about each packet of its events, in their order; every Solve that this began has
  -- run; and Status says that Run is not active.
  pub ended_stream-is_served :
      ServiceSteps decode has_stop plugins has_log new_service s
      → s.stopping ≡ no_call
      → s.routine ≡ closed_done
      → (s.run.asked ≡ all_calls plugins (packets decode s.source.read))
        × Perm s.run.dispatched s.run.solved
        × (status s ≡ false)
  unfolding status
  ended_stream-is_served steps n e =
      let sound = steps-IsSound steps in
      let (off, started, over) = sound.finished e in
      let live = sound.uncanceled n in
      let (r, at) = returned_of s.run.phase over in
      let (drained, empty) = left_closed_of r at (sound.uncanceled n) sound in
      (
        returned_runs-ask plugins has_log s.run r (Steps-run steps) at
            ∙ ap (λ txs. all_calls plugins txs)
                (Steps-sync steps
                  ∙ sym (
                      drained-Moves-deliver decode has_stop s.source (Steps-move steps) drained
                        empty live)),
        returned_runs-solve plugins has_log s.run r (Steps-run steps) at,
        off,
      )
