-- ===== src/Solver/Run.antt =====
-- pkg/solver/solver.go: Run, as steps on its state. `P` is the type of plugins, `X` of transactions
-- and `T` of intents.
mod Tests
pub mod Dispatch
pub mod Asked
use bancod.Prelude.{◌≡◌, Bool, true, false, List, [], ◌∷◌, ◌++◌, Option, none, some, if◌then◌else◌}

-- What a plugin's Match does: it returns an intent and true, or false, or it panics.
pub data Outcome (T : Type 0) : Type 0 where
  hit : T → Outcome T
  miss : Outcome T
  match_panic : Outcome T

-- How a Solve ends.
pub data Ending : Type 0 where
  finished solve_panic : Ending

-- What Run returns: ctx.Err() or nil.
pub data Exit : Type 0 where
  canceled closed : Exit

-- A panic report of logPanic.
pub data Report : Type 0 where
  match_panicked solve_panicked : Report

-- Where Run is: in select; in the loop over the plugins, with those that are left; in wg.Wait with
-- the value to return; or returned.
pub data Phase (P X : Type 0) : Type 0 where
  selecting : Phase P X
  matching : X → List P → Phase P X
  draining : Exit → Phase P X
  returned : Exit → Phase P X

-- A Solve: the plugin and the intent.
pub record Job (P T : Type 0) : Type 0 where
  pub plugin : P
  pub intent : T

-- in_flight are the jobs that wg counts. The histories: `received` the transactions that were not
-- nil, `asked` the calls of safeMatch, `dispatched` and `solved` the jobs begun and done, `reports`
-- the panic reports.
pub record RunState (P X T : Type 0) : Type 0 where
  pub phase : Phase P X
  pub in_flight : List (Job P T)
  pub received : List X
  pub asked : List (X × P)
  pub dispatched : List (Job P T)
  pub solved : List (Job P T)
  pub reports : List Report

-- logPanic, which reports nothing without a logger.
unfoldable pub log_panic : Bool → Report → List Report → List Report
log_panic has_log r rs = if has_log then rs ++ r ∷ [] else rs

module _ {P X T : Type 0} where
  unfoldable pub start : RunState P X T
  start = record {
    phase = selecting;
    in_flight = [];
    received = [];
    asked = [];
    dispatched = [];
    solved = [];
    reports = [];
  }

  -- A transaction from the channel; nil is skipped.
  unfoldable pub receive : List P → Option X → RunState P X T → RunState P X T
  receive plugins none s = record s { phase = selecting }
  receive plugins (some tx) s = record s {
    phase = matching tx plugins;
    received = s.received ++ tx ∷ [];
  }

  -- `wg.Add(1)` and the goroutine of a job.
  pub dispatch : Job P T → RunState P X T → RunState P X T
  dispatch job s = record s {
    in_flight = s.in_flight ++ job ∷ [];
    dispatched = s.dispatched ++ job ∷ [];
  }

  -- What follows safeMatch in the loop: an intent is dispatched, and a panic counts as no match.
  unfoldable pub after_match : Bool → P → Outcome T → RunState P X T → RunState P X T
  unfolding dispatch
  after_match has_log p (hit t) s = dispatch (record { plugin = p; intent = t }) s
  after_match has_log p miss s = s
  after_match has_log p match_panic s = record s {
    reports = log_panic has_log match_panicked s.reports;
  }

  -- One turn of the loop over the plugins.
  unfoldable pub match_next : Bool → X → P → List P → Outcome T → RunState P X T → RunState P X T
  match_next has_log tx p rest outcome s =
      after_match has_log p outcome
        (record s { phase = matching tx rest; asked = s.asked ++ (tx, p) ∷ [] })

  -- The end of a goroutine, `before` and `behind` being the other jobs in flight.
  unfoldable pub finish :
      Bool → Ending → List (Job P T) → Job P T → List (Job P T) → RunState P X T → RunState P X T
  finish has_log finished before job behind s = record s {
    in_flight = before ++ behind;
    solved = s.solved ++ job ∷ [];
  }
  finish has_log solve_panic before job behind s = record s {
    in_flight = before ++ behind;
    solved = s.solved ++ job ∷ [];
    reports = log_panic has_log solve_panicked s.reports;
  }

-- A step of Run, for the plugins and the logger that the Solver has. Run's own steps follow its
-- code, and a goroutine may end between any two of them.
pub data Step {P X T : Type 0} (plugins : List P) (has_log : Bool)
    : RunState P X T → RunState P X T → Type 0 where
  take_tx :
      {s : RunState P X T} (tx : Option X)
      → s.phase ≡ selecting
      → Step plugins has_log s (receive plugins tx s)
  stop :
      {s : RunState P X T} (r : Exit)
      → s.phase ≡ selecting
      → Step plugins has_log s (record s { phase = draining r })
  ask :
      {s : RunState P X T} (tx : X) (p : P) (rest : List P) (outcome : Outcome T)
      → s.phase ≡ matching tx (p ∷ rest)
      → Step plugins has_log s (match_next has_log tx p rest outcome s)
  all_asked :
      {s : RunState P X T} (tx : X)
      → s.phase ≡ matching tx []
      → Step plugins has_log s (record s { phase = selecting })
  end_job :
      {s : RunState P X T} (how : Ending) (before : List (Job P T)) (job : Job P T)
      (behind : List (Job P T))
      → s.in_flight ≡ before ++ job ∷ behind
      → Step plugins has_log s (finish has_log how before job behind s)
  return_exit :
      {s : RunState P X T} (r : Exit)
      → s.phase ≡ draining r
      → s.in_flight ≡ []
      → Step plugins has_log s (record s { phase = returned r })

pub data Steps {P X T : Type 0} (plugins : List P) (has_log : Bool)
    : RunState P X T → RunState P X T → Type 0 where
  here : {s : RunState P X T} → Steps plugins has_log s s
  then :
      {s s' s'' : RunState P X T}
      → Steps plugins has_log s s'
      → Step plugins has_log s' s''
      → Steps plugins has_log s s''
