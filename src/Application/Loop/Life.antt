-- ===== src/Application/Loop/Life.antt =====
-- What holds of the fields of the service between its steps.
use bancod.Prelude.{
  ◌≡◌, refl, sym, ap, ◌∙◌, Bool, true, false, List, Option, none, some, Bytes, arith,
}
use bancod.Solver.Source
use bancod.Solver.Source.Fields.{Step-keeps, Step-ne-ended}
use bancod.Solver.Source.{SourceState, subscribed, take_packet}
use bancod.Solver.Run
use bancod.Solver.Run.{
  RunState, Phase, selecting, matching, draining, returned, Exit, canceled, closed, start, receive,
  match_next, take_tx, stop, ask, all_asked, end_job, return_exit,
}
use bancod.Solver.Run.Dispatch.{after_match-phase, finish-phase}
use bancod.Application.Loop.{
  unborn, in_run, cleared, closed_done, no_call, stop_waits, stop_returned, ServiceState,
  new_service, start_service, stop_when, stop_service, IsInner, ServiceStep, ServiceSteps, here,
  then, call_start, source_step, run_takes, run_sees_done, run_sees_closed, run_step, run_returns,
  close_done, call_stop, stop_returns,
}

-- The value that Run is to return, once it has left its loop.
abbrev pub exit_of : {P X : Type 0} → Phase P X → Option Exit
exit_of selecting = none
exit_of (matching tx ps) = none
exit_of (draining r) = some r
exit_of (returned r) = some r

abbrev pub has_returned : {P X : Type 0} → Phase P X → Bool
has_returned (returned r) = true
has_returned selecting = false
has_returned (matching tx ps) = false
has_returned (draining r) = false

-- `running` is set exactly while the goroutine is in Run, and the goroutine passes Run when Run has
-- returned; the context is done exactly where Stop was called after Start; and Run left its loop
-- for a reason that holds.
pub record IsSound {P X T : Type 0} (s : ServiceState P X T) : Type 0 where
  pub idle : s.routine ≡ unborn → (s.running ≡ false) × (s.started ≡ false)
  pub active : s.routine ≡ in_run → (s.running ≡ true) × (s.started ≡ true)
  pub passed :
      s.routine ≡ cleared
      → (s.running ≡ false) × (s.started ≡ true) × (has_returned s.run.phase ≡ true)
  pub finished :
      s.routine ≡ closed_done
      → (s.running ≡ false) × (s.started ≡ true) × (has_returned s.run.phase ≡ true)
  pub uncanceled : s.stopping ≡ no_call → s.source.canceled ≡ false
  pub stops : s.stopping ≡ stop_waits → (s.source.canceled ≡ true) × (s.started ≡ true)
  pub stopped : s.stopping ≡ stop_returned → s.started ≡ true → s.routine ≡ closed_done
  pub left_canceled : exit_of s.run.phase ≡ some canceled → s.source.canceled ≡ true
  pub left_closed :
      exit_of s.run.phase ≡ some closed → (s.source.phase ≡ Source.ended) × (s.source.buffer ≡ none)

module _ {P X T : Type 0} where
  stop_when-IsSound :
      (b : Bool) (s : ServiceState P X T)
      → s.started ≡ b
      → s.stopping ≡ no_call
      → IsSound s
      → IsSound (stop_when b s)
  unfolding stop_when
  stop_when-IsSound true s e n h = ground arith
  stop_when-IsSound false s e n h = ground arith

  IsInner-exit :
      {plugins : List P} {has_log : Bool} {s s' : RunState P X T}
      (t : Run.Step plugins has_log s s')
      → IsInner t
      → exit_of s'.phase ≡ exit_of s.phase
  unfolding match_next
  IsInner-exit (take_tx tx e) i = absurd i
  IsInner-exit (stop r e) i = absurd i
  IsInner-exit {s = s} (ask tx p rest outcome e) i =
      ap exit_of (after_match-phase _ p outcome _) ∙ sym (ap exit_of e)
  IsInner-exit (all_asked tx e) i = sym (ap exit_of e)
  IsInner-exit {s = s} (end_job how before job behind e) i =
      ap exit_of (finish-phase _ how before job behind s)
  IsInner-exit (return_exit r e e') i = sym (ap exit_of e)

  Step-IsSound :
      {decode : Bytes → Option X} {has_stop : Bool} {plugins : List P} {has_log : Bool}
      {s s' : ServiceState P X T}
      → ServiceStep decode has_stop plugins has_log s s'
      → IsSound s
      → IsSound s'
  unfolding start_service stop_service subscribed start take_packet receive
  Step-IsSound (call_start e n) h = ground arith
  Step-IsSound (source_step source b t) h = ground (arith, (Step-keeps t).1, Step-ne-ended t)
  Step-IsSound (run_takes pkt e p b) h = ground arith
  Step-IsSound (run_sees_done e p c) h = ground arith
  Step-IsSound (run_sees_closed e p c b) h = ground arith
  Step-IsSound (run_step run t e i) h = ground (arith, IsInner-exit t i)
  Step-IsSound (run_returns x e p) h = ground arith
  Step-IsSound (close_done e) h = ground arith
  Step-IsSound {s = s} (call_stop n) h = stop_when-IsSound s.started s refl n h
  Step-IsSound (stop_returns w e) h = ground arith

  pub steps-IsSound :
      {decode : Bytes → Option X} {has_stop : Bool} {plugins : List P} {has_log : Bool}
      {s : ServiceState P X T}
      → ServiceSteps decode has_stop plugins has_log new_service s
      → IsSound s
  unfolding new_service subscribed start
  steps-IsSound here = ground arith
  steps-IsSound (then r t) = Step-IsSound t (steps-IsSound r)

pub returned_of :
    {P X : Type 0} (p : Phase P X) → has_returned p ≡ true → (r : Exit) × (p ≡ returned r)
returned_of (returned r) e = (r, refl)
returned_of selecting e = absurd cc
returned_of (matching tx ps) e = absurd cc
returned_of (draining r) e = absurd cc
