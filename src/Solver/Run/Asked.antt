-- ===== src/Solver/Run/Asked.antt =====
-- The calls of Match that Run has made in the states that it reaches.
use bancod.Prelude.{◌≡◌, refl, sym, subst, ◌∙◌, Bool, List, [], ◌∷◌, ◌++◌, none, some}
use mathlib.Core.List.{append_assoc, append-nil}
use bancod.Solver.Run.Dispatch.{after_match-phase, finish-phase}
use bancod.Solver.Run.{
  Exit, Outcome, hit, miss, match_panic, Ending, finished, solve_panic, Phase, selecting, matching,
  draining, returned, Job, RunState, start, receive, dispatch, after_match, match_next, finish,
  Step, take_tx, stop, ask, all_asked, end_job, return_exit, Steps, here, then,
}

-- The calls that the loop over the plugins makes for each transaction.
pub calls : {P X : Type 0} → List P → X → List (X × P)
calls [] tx = []
calls (p ∷ ps) tx = (tx, p) ∷ calls ps tx

pub all_calls : {P X : Type 0} → List P → List X → List (X × P)
unfolding calls
all_calls plugins [] = []
all_calls plugins (tx ∷ txs) = calls plugins tx ++ all_calls plugins txs

-- The calls that are left for the transaction in hand.
calls_left : {P X : Type 0} → Phase P X → List (X × P)
unfolding calls
calls_left (matching tx ps) = calls ps tx
calls_left selecting = []
calls_left (draining r) = []
calls_left (returned r) = []

all_calls-append :
    {P X : Type 0} (plugins : List P) (txs : List X) (tx : X)
    → all_calls plugins (txs ++ tx ∷ []) ≡ all_calls plugins txs ++ calls plugins tx
unfolding all_calls
all_calls-append plugins [] tx = append-nil (calls plugins tx)
all_calls-append plugins (x ∷ txs) tx =
    rw (all_calls-append plugins txs tx)
      (sym (append_assoc (calls plugins x) (all_calls plugins txs) (calls plugins tx)))

module _ {P X T : Type 0} where
  -- What was asked and what is left to ask make up every plugin for every transaction.
  IsAsked : List P → RunState P X T → Type 0
  unfolding all_calls calls_left
  IsAsked plugins s = s.asked ++ calls_left s.phase ≡ all_calls plugins s.received

  pub after_match-asked :
      (l : Bool) (p : P) (o : Outcome T) (s : RunState P X T)
      → ((after_match l p o s).asked ≡ s.asked) × ((after_match l p o s).received ≡ s.received)
  unfolding after_match dispatch
  after_match-asked l p (hit t) s = (refl, refl)
  after_match-asked l p miss s = (refl, refl)
  after_match-asked l p match_panic s = (refl, refl)

  pub finish-asked :
      (l : Bool) (how : Ending) (before : List (Job P T)) (job : Job P T) (behind : List (Job P T))
      (s : RunState P X T)
      → ((finish l how before job behind s).asked ≡ s.asked)
        × ((finish l how before job behind s).received ≡ s.received)
  unfolding finish
  finish-asked l finished before job behind s = (refl, refl)
  finish-asked l solve_panic before job behind s = (refl, refl)

  IsAsked-of_phase :
      (plugins : List P) (s : RunState P X T) (f : Phase P X)
      → s.phase ≡ f
      → IsAsked plugins s
      → s.asked ++ calls_left f ≡ all_calls plugins s.received
  unfolding IsAsked
  IsAsked-of_phase plugins s f e h =
      subst (λ g. s.asked ++ calls_left g ≡ all_calls plugins s.received) e h

  IsAsked-of_fields :
      (plugins : List P) (s : RunState P X T) (a : List (X × P)) (f : Phase P X) (rs : List X)
      → s.asked ≡ a
      → s.phase ≡ f
      → s.received ≡ rs
      → a ++ calls_left f ≡ all_calls plugins rs
      → IsAsked plugins s
  unfolding IsAsked
  IsAsked-of_fields plugins s a f rs e₁ e₂ e₃ h = rw (e₁, e₂, e₃) h

  Step-IsAsked :
      {plugins : List P} {l : Bool} {s s' : RunState P X T}
      → Step plugins l s s'
      → IsAsked plugins s
      → IsAsked plugins s'
  unfolding receive match_next calls_left calls
  Step-IsAsked {plugins} {s} (take_tx none e) h =
      IsAsked-of_fields plugins _ s.asked selecting s.received refl refl refl
        (IsAsked-of_phase plugins s selecting e h)
  Step-IsAsked {plugins} {s} (take_tx (some tx) e) h =
      let g = IsAsked-of_phase plugins s selecting e h in
      IsAsked-of_fields plugins _ s.asked (matching tx plugins) (s.received ++ tx ∷ []) refl refl
        refl (rw (all_calls-append plugins s.received tx, sym g, append-nil s.asked) refl)
  Step-IsAsked {plugins} {s} (stop q e) h =
      IsAsked-of_fields plugins _ s.asked (draining q) s.received refl refl refl
        (IsAsked-of_phase plugins s selecting e h)
  Step-IsAsked {plugins} {l} {s} (ask tx p rest outcome e) h =
      let t : RunState P X T = record s {
        phase = matching tx rest;
        asked = s.asked ++ (tx, p) ∷ [];
      } in
      let (ea, er) = after_match-asked l p outcome t in
      IsAsked-of_fields plugins _ (s.asked ++ (tx, p) ∷ []) (matching tx rest) s.received ea
        (after_match-phase l p outcome t) er
        (append_assoc s.asked ((tx, p) ∷ []) (calls rest tx)
          ∙ IsAsked-of_phase plugins s (matching tx (p ∷ rest)) e h)
  Step-IsAsked {plugins} {s} (all_asked tx e) h =
      IsAsked-of_fields plugins _ s.asked selecting s.received refl refl refl
        (IsAsked-of_phase plugins s (matching tx []) e h)
  Step-IsAsked {plugins} {l} {s} (end_job how before job behind e) h =
      let (ea, er) = finish-asked l how before job behind s in
      IsAsked-of_fields plugins _ s.asked s.phase s.received ea
        (finish-phase l how before job behind s) er (IsAsked-of_phase plugins s s.phase refl h)
  Step-IsAsked {plugins} {s} (return_exit q e e') h =
      IsAsked-of_fields plugins _ s.asked (returned q) s.received refl refl refl
        (IsAsked-of_phase plugins s (draining q) e h)

  Steps-IsAsked :
      {plugins : List P} {l : Bool} {s s' : RunState P X T}
      → Steps plugins l s s'
      → IsAsked plugins s
      → IsAsked plugins s'
  Steps-IsAsked here h = h
  Steps-IsAsked (then r t) h = Step-IsAsked t (Steps-IsAsked r h)

  -- Whenever Run is back in select, Match of every plugin has been called exactly once for every
  -- transaction that was received and is not nil, in the order of the transactions and of the
  -- plugins: no miss and no panic of one plugin keeps a transaction from another.
  pub selecting_runs-ask :
      (plugins : List P) (has_log : Bool) (s : RunState P X T)
      → Steps plugins has_log start s
      → s.phase ≡ selecting
      → s.asked ≡ all_calls plugins s.received
  unfolding IsAsked start calls_left all_calls
  selecting_runs-ask plugins has_log s steps e =
      sym (append-nil s.asked) ∙ IsAsked-of_phase plugins s selecting e (Steps-IsAsked steps refl)

  -- The same where Run has returned.
  pub returned_runs-ask :
      (plugins : List P) (has_log : Bool) (s : RunState P X T) (r : Exit)
      → Steps plugins has_log start s
      → s.phase ≡ returned r
      → s.asked ≡ all_calls plugins s.received
  unfolding IsAsked start calls_left all_calls
  returned_runs-ask plugins has_log s r steps e =
      sym (append-nil s.asked)
      ∙ IsAsked-of_phase plugins s (returned r) e (Steps-IsAsked steps refl)
