-- ===== src/Application/Loop/Tests.antt =====
-- One transaction that one plugin matches; then the stream ends, or Stop is called.
use bancod.Prelude.{
  ℕ, ◌≤◌, ◌≡◌, refl, true, false, List, [], ◌∷◌, ◌++◌, Option, none, some, Bytes, length,
}
use mathlib.Core.List.{Perm}
use bancod.Solver.Source
use bancod.Solver.Source.{Event, SourceState, subscribed, take_packet, on_event, leave}
use bancod.Solver.Source.Accounts.{packets}
use bancod.Solver.Run.{
  Outcome, hit, Ending, solve_panic, RunState, Job, selecting, returned, draining, Exit, closed,
  canceled, start, receive, match_next, after_match, matching, finish, ask, all_asked, end_job,
  return_exit,
}
use bancod.Solver.Run.Asked.{all_calls}
use bancod.Application.Loop.{
  in_run, closed_done, no_call, stop_waits, stop_returned, ServiceState, new_service, start_service,
  stop_service, status, ServiceSteps, here, then, call_start, source_step, run_takes, run_sees_done,
  run_sees_closed, run_step, run_returns, close_done, call_stop, stop_returns,
}
use bancod.Application.Loop.Delivers.{listening_service-asks, ended_stream-is_served}
use bancod.Application.Loop.Stops.{stopped_service-is_settled}

abbrev decode : Bytes → Option ℕ
decode [] = none
decode (b ∷ bs) = some b

abbrev good : Event
good = record { failed = false; ark_tx = some (5 ∷ []) }

abbrev plugins : List ℕ
plugins = 1 ∷ []

abbrev job : Job ℕ ℕ
job = record { plugin = 1; intent = 70 }

-- Run is back in select, and the Solve runs.
abbrev listening : ServiceState ℕ ℕ ℕ
listening = record {
  started = true;
  running = true;
  routine = in_run;
  stopping = no_call;
  source = record {
    phase = Source.waiting;
    buffer = none;
    canceled = false;
    read = good ∷ [];
    taken = 5 ∷ [];
    stops = 0;
  };
  run = record {
    phase = selecting;
    in_flight = job ∷ [];
    received = 5 ∷ [];
    asked = (5, 1) ∷ [];
    dispatched = job ∷ [];
    solved = [];
    reports = [];
  };
}

abbrev begun : ServiceState ℕ ℕ ℕ
begun = start_service new_service

abbrev matching_one : ServiceState ℕ ℕ ℕ
matching_one = record listening {
  run = record listening.run {
    phase = matching 5 plugins;
    in_flight = [];
    asked = [];
    dispatched = [];
  };
}

to_begun : ServiceSteps decode true plugins true new_service begun
unfolding new_service start_service
to_begun = then here (call_start refl refl)

to_matching : ServiceSteps decode true plugins true new_service matching_one
unfolding start_service subscribed start on_event take_packet receive new_service
to_matching =
    then
      (then
        (then (then to_begun (source_step _ refl (Source.subscribe refl)))
          (source_step _ refl (Source.read_event good refl)))
        (source_step _ refl (Source.send 5 refl refl)))
      (run_takes 5 refl refl refl)

to_listening : ServiceSteps decode true plugins true new_service listening
unfolding match_next after_match
to_listening =
    then (then to_matching (run_step _ (ask 5 1 [] (hit 70) refl) refl tt))
      (run_step _ (all_asked 5 refl) refl tt)

listening_service-asks_example :
    (txs : List ℕ) × (rest : List ℕ) × (packets decode listening.source.read ≡ txs ++ rest)
    × (length rest ≤ 2)
    × (listening.run.asked ≡ all_calls plugins txs)
listening_service-asks_example =
    listening_service-asks decode true plugins true listening to_listening refl

-- The stream ends, then the Solve, by a panic.
abbrev ended : ServiceState ℕ ℕ ℕ
ended = record listening {
  running = false;
  routine = closed_done;
  source = record listening.source { phase = Source.ended; stops = 1 };
  run = record listening.run {
    phase = returned closed;
    in_flight = [];
    solved = job ∷ [];
    reports = bancod.Solver.Run.solve_panicked ∷ [];
  };
}

to_ended : ServiceSteps decode true plugins true new_service ended
unfolding leave finish bancod.Solver.Run.log_panic
to_ended =
    then
      (then
        (then
          (then
            (then (then to_listening (source_step _ refl (Source.stream_closes refl)))
              (run_sees_closed refl refl refl refl))
            (run_step _ (end_job solve_panic [] job [] refl) refl tt))
          (run_step _ (return_exit closed refl refl) refl tt))
        (run_returns closed refl refl))
      (close_done refl)

ended_stream-is_served_example :
    (ended.run.asked ≡ all_calls plugins (packets decode ended.source.read))
    × Perm ended.run.dispatched ended.run.solved
    × (status ended ≡ false)
ended_stream-is_served_example =
    ended_stream-is_served decode true plugins true ended to_ended refl refl

-- Stop is called while the Solve runs.
abbrev waiting : ServiceState ℕ ℕ ℕ
waiting = record listening {
  stopping = stop_waits;
  source = record listening.source { canceled = true };
}

to_waiting : ServiceSteps decode true plugins true new_service waiting
unfolding stop_service
to_waiting = then to_listening (call_stop refl)

abbrev stopped : ServiceState ℕ ℕ ℕ
stopped = record waiting {
  running = false;
  routine = closed_done;
  stopping = stop_returned;
  run = record ended.run { phase = returned canceled };
}

to_stopped : ServiceSteps decode true plugins true new_service stopped
unfolding finish bancod.Solver.Run.log_panic
to_stopped =
    then
      (then
        (then
          (then
            (then (then to_waiting (run_sees_done refl refl refl))
              (run_step _ (end_job solve_panic [] job [] refl) refl tt))
            (run_step _ (return_exit canceled refl refl) refl tt))
          (run_returns canceled refl refl))
        (close_done refl))
      (stop_returns refl refl)

stopped_service-is_settled_example :
    ((r : Exit) × (stopped.run.phase ≡ returned r))
    × Perm stopped.run.dispatched stopped.run.solved
    × (status stopped ≡ false)
stopped_service-is_settled_example =
    stopped_service-is_settled decode true plugins true stopped to_stopped refl refl
