-- ===== src/Application/Loop.antt =====
-- internal/core/application/service.go: Start, Stop and Status of the TakerService, as steps of
-- the goroutine that Start spawns, of the stream's goroutine, and of the callers. Start is called
-- once and before Stop, as cmd/bancod does.
mod Tests
pub mod Runs
pub mod Life
pub mod Delivers
pub mod Stops
pub mod Ends
use bancod.Prelude.{◌≡◌, Bool, true, false, List, Option, none, some, Bytes}
use bancod.Solver.Source
use bancod.Solver.Source.{SourceState, subscribed, take_packet}
use bancod.Solver.Run
use bancod.Solver.Run.{
  RunState, Exit, start, receive, selecting, draining, returned, canceled, closed, take_tx, stop,
  ask, all_asked, end_job, return_exit,
}

-- Where the goroutine of Start is: not begun; in Run; between its deferred calls, with `running`
-- reset; or ended, with `done` closed.
pub data Routine : Type 0 where
  unborn in_run cleared closed_done : Routine

-- The call of Stop: not made; waiting for `done`; or returned.
pub data StopCall : Type 0 where
  no_call stop_waits stop_returned : StopCall

-- `started` says that `cancel` and `done` are set. The context is canceled where the source's is.
pub record ServiceState (P X T : Type 0) : Type 0 where
  pub started : Bool
  pub running : Bool
  pub routine : Routine
  pub stopping : StopCall
  pub source : SourceState X
  pub run : RunState P X T

-- Run's steps but those on its channels.
abbrev pub IsInner :
    {P X T : Type 0} {plugins : List P} {has_log : Bool} {s s' : RunState P X T}
    → Run.Step plugins has_log s s'
    → Type 0
IsInner (take_tx tx e) = ⊥
IsInner (stop r e) = ⊥
IsInner (ask tx p rest outcome e) = Unit
IsInner (all_asked tx e) = Unit
IsInner (end_job how before job behind e) = Unit
IsInner (return_exit r e e') = Unit

module _ {P X T : Type 0} where
  pub new_service : ServiceState P X T
  new_service = record {
    started = false;
    running = false;
    routine = unborn;
    stopping = no_call;
    source = subscribed;
    run = start;
  }

  -- Start: a new context and channel, the subscription, and the goroutine.
  pub start_service : ServiceState P X T → ServiceState P X T
  start_service s = record s {
    started = true;
    running = true;
    routine = in_run;
    source = subscribed;
    run = start;
  }

  -- Stop, up to `<-svc.done`; without a Start it returns at once.
  pub stop_when : Bool → ServiceState P X T → ServiceState P X T
  stop_when false s = record s { stopping = stop_returned }
  stop_when true s = record s {
    stopping = stop_waits;
    source = record s.source { canceled = true };
  }

  pub stop_service : ServiceState P X T → ServiceState P X T
  unfolding stop_when
  stop_service s = stop_when s.started s

  -- Status
  pub status : ServiceState P X T → Bool
  status s = s.running

module _ {P X T : Type 0} (decode : Bytes → Option X) (has_stop : Bool) (plugins : List P)
    (has_log : Bool) where
  -- Run takes a packet from the channel, and leaves its loop when the context is done or the
  -- channel is closed and drained.
  pub data ServiceStep : ServiceState P X T → ServiceState P X T → Type 0 where
    call_start :
        {s : ServiceState P X T}
        → s.started ≡ false
        → s.stopping ≡ no_call
        → ServiceStep s (start_service s)
    source_step :
        {s : ServiceState P X T} (source : SourceState X)
        → s.started ≡ true
        → Source.Step decode has_stop s.source source
        → ServiceStep s (record s { source = source })
    run_takes :
        {s : ServiceState P X T} (pkt : X)
        → s.routine ≡ in_run
        → s.run.phase ≡ selecting
        → s.source.buffer ≡ some pkt
        → ServiceStep s
            (record s { source = take_packet pkt s.source; run = receive plugins (some pkt) s.run })
    run_sees_done :
        {s : ServiceState P X T}
        → s.routine ≡ in_run
        → s.run.phase ≡ selecting
        → s.source.canceled ≡ true
        → ServiceStep s (record s { run = record s.run { phase = draining canceled } })
    run_sees_closed :
        {s : ServiceState P X T}
        → s.routine ≡ in_run
        → s.run.phase ≡ selecting
        → s.source.phase ≡ Source.ended
        → s.source.buffer ≡ none
        → ServiceStep s (record s { run = record s.run { phase = draining closed } })
    run_step :
        {s : ServiceState P X T} (run : RunState P X T) (t : Run.Step plugins has_log s.run run)
        → s.routine ≡ in_run
        → IsInner t
        → ServiceStep s (record s { run = run })
    run_returns :
        {s : ServiceState P X T} (r : Exit)
        → s.routine ≡ in_run
        → s.run.phase ≡ returned r
        → ServiceStep s (record s { running = false; routine = cleared })
    close_done :
        {s : ServiceState P X T}
        → s.routine ≡ cleared
        → ServiceStep s (record s { routine = closed_done })
    call_stop : {s : ServiceState P X T} → s.stopping ≡ no_call → ServiceStep s (stop_service s)
    stop_returns :
        {s : ServiceState P X T}
        → s.stopping ≡ stop_waits
        → s.routine ≡ closed_done
        → ServiceStep s (record s { stopping = stop_returned })

  pub data ServiceSteps : ServiceState P X T → ServiceState P X T → Type 0 where
    here : {s : ServiceState P X T} → ServiceSteps s s
    then :
        {s s' s'' : ServiceState P X T}
        → ServiceSteps s s'
        → ServiceStep s' s''
        → ServiceSteps s s''
