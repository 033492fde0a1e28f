-- ===== src/Application/Loop/Runs.antt =====
-- The service's steps as steps of Run and of the stream's source.
use bancod.Prelude.{
  ◌≡◌, refl, sym, ap, ◌∙◌, Bool, true, false, List, [], ◌∷◌, ◌++◌, Option, some, Bytes,
}
use bancod.Solver.Source
use bancod.Solver.Source.{SourceState, subscribed, take_packet}
use bancod.Solver.Source.Fields.{Step-keeps}
use bancod.Solver.Run
use bancod.Solver.Run.{
  RunState, Outcome, hit, miss, match_panic, Ending, finished, solve_panic, Job, start, receive,
  match_next, after_match, dispatch, finish, take_tx, stop, ask, all_asked, end_job, return_exit,
  canceled, closed,
}
use bancod.Solver.Run.Asked.{after_match-asked, finish-asked}
use bancod.Application.Loop.{
  ServiceState, new_service, start_service, stop_when, stop_service, IsInner, ServiceStep,
  ServiceSteps, here, then, call_start, source_step, run_takes, run_sees_done, run_sees_closed,
  run_step, run_returns, close_done, call_stop, stop_returns,
}

module _ {P X T : Type 0} {plugins : List P} {has_log : Bool} where
  stop_when-Steps :
      (b : Bool) (s : ServiceState P X T)
      → Run.Steps plugins has_log start s.run
      → Run.Steps plugins has_log start (stop_when b s).run
  unfolding stop_when
  stop_when-Steps true s h = h
  stop_when-Steps false s h = h

  IsInner-received :
      {s s' : RunState P X T} (t : Run.Step plugins has_log s s')
      → IsInner t
      → s'.received ≡ s.received
  unfolding match_next
  IsInner-received (take_tx tx e) i = absurd i
  IsInner-received (stop r e) i = absurd i
  IsInner-received {s} (ask tx p rest outcome e) i = (after_match-asked _ p outcome _).1
  IsInner-received (all_asked tx e) i = refl
  IsInner-received {s} (end_job how before job behind e) i =
      (finish-asked _ how before job behind s).1
  IsInner-received (return_exit r e e') i = refl

module _ {P X T : Type 0} {decode : Bytes → Option X} {has_stop : Bool} where
  stop_when-Moves :
      (b : Bool) (s : ServiceState P X T)
      → Source.Moves decode has_stop subscribed s.source
      → Source.Moves decode has_stop subscribed (stop_when b s).source
  unfolding stop_when
  stop_when-Moves true s h = Source.then h Source.cancel
  stop_when-Moves false s h = h

stop_when-synced :
    {P X T : Type 0} (b : Bool) (s : ServiceState P X T)
    → s.run.received ≡ s.source.taken
    → (stop_when b s).run.received ≡ (stop_when b s).source.taken
unfolding stop_when
stop_when-synced true s h = h
stop_when-synced false s h = h

module _ {P X T : Type 0} {decode : Bytes → Option X} {has_stop : Bool} {plugins : List P}
    {has_log : Bool} where
  step_run :
      {s s' : ServiceState P X T}
      → ServiceStep decode has_stop plugins has_log s s'
      → Run.Steps plugins has_log start s.run
      → Run.Steps plugins has_log start s'.run
  unfolding start_service stop_service
  step_run (call_start e n) h = Run.here
  step_run (source_step source b t) h = h
  step_run (run_takes pkt e p b) h = Run.then h (take_tx (some pkt) p)
  step_run (run_sees_done e p c) h = Run.then h (stop canceled p)
  step_run (run_sees_closed e p c b) h = Run.then h (stop closed p)
  step_run (run_step run t e i) h = Run.then h t
  step_run (run_returns x e p) h = h
  step_run (close_done e) h = h
  step_run {s} (call_stop n) h = stop_when-Steps s.started s h
  step_run (stop_returns w e) h = h

  -- The service's steps take Run through its own.
  pub Steps-run :
      {s : ServiceState P X T}
      → ServiceSteps decode has_stop plugins has_log new_service s
      → Run.Steps plugins has_log start s.run
  unfolding new_service
  Steps-run here = Run.here
  Steps-run (then r t) = step_run t (Steps-run r)

  step_move :
      {s s' : ServiceState P X T}
      → ServiceStep decode has_stop plugins has_log s s'
      → Source.Moves decode has_stop subscribed s.source
      → Source.Moves decode has_stop subscribed s'.source
  unfolding start_service stop_service
  step_move (call_start e n) h = Source.here
  step_move (source_step source b t) h = Source.then h (Source.own t)
  step_move (run_takes pkt e p b) h = Source.then h (Source.take pkt b)
  step_move (run_sees_done e p c) h = h
  step_move (run_sees_closed e p c b) h = h
  step_move (run_step run t e i) h = h
  step_move (run_returns x e p) h = h
  step_move (close_done e) h = h
  step_move {s} (call_stop n) h = stop_when-Moves s.started s h
  step_move (stop_returns w e) h = h

  -- They take the stream's source through its own.
  pub Steps-move :
      {s : ServiceState P X T}
      → ServiceSteps decode has_stop plugins has_log new_service s
      → Source.Moves decode has_stop subscribed s.source
  unfolding new_service
  Steps-move here = Source.here
  Steps-move (then r t) = step_move t (Steps-move r)

  step_sync :
      {s s' : ServiceState P X T}
      → ServiceStep decode has_stop plugins has_log s s'
      → s.run.received ≡ s.source.taken
      → s'.run.received ≡ s'.source.taken
  unfolding start_service stop_service start subscribed receive take_packet
  step_sync (call_start e n) h = refl
  step_sync (source_step source b t) h = h ∙ sym (Step-keeps t).0
  step_sync (run_takes pkt e p b) h = ap (λ l. l ++ pkt ∷ []) h
  step_sync (run_sees_done e p c) h = h
  step_sync (run_sees_closed e p c b) h = h
  step_sync (run_step run t e i) h = IsInner-received t i ∙ h
  step_sync (run_returns x e p) h = h
  step_sync (close_done e) h = h
  step_sync {s} (call_stop n) h = stop_when-synced s.started s h
  step_sync (stop_returns w e) h = h

  -- Run has received what the consumer has taken.
  pub Steps-sync :
      {s : ServiceState P X T}
      → ServiceSteps decode has_stop plugins has_log new_service s
      → s.run.received ≡ s.source.taken
  unfolding new_service start subscribed
  Steps-sync here = refl
  Steps-sync (then r t) = step_sync t (Steps-sync r)
