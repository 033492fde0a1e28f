-- ===== src/Solver/Run/Dispatch.antt =====
-- What Run has asked, begun and finished in the states that it reaches.
use bancod.Prelude.{◌≡◌, refl, sym, subst, ◌∙◌, Bool, List, [], ◌∷◌, ◌++◌, none, some}
use mathlib.Core.List.{Perm, perm_middle, append_assoc, append-nil}
use mathlib.Core.List.Perm
use bancod.Solver.Run.{
  Outcome, hit, miss, match_panic, Ending, finished, solve_panic, Exit, matching, draining,
  returned, Job, RunState, start, receive, dispatch, after_match, match_next, finish, Step, take_tx,
  stop, ask, all_asked, end_job, return_exit, Steps, here, then,
}

-- Moving an element to the middle of a list.
move_middle :
    {A : Type 0} (xs before behind : List A) (x : A)
    → Perm (xs ++ (before ++ x ∷ behind)) ((xs ++ x ∷ []) ++ (before ++ behind))
move_middle xs before behind x =
    subst (λ ys. Perm (xs ++ (before ++ x ∷ behind)) ys)
      (sym (append_assoc xs (x ∷ []) (before ++ behind)))
      (Perm.append_left xs (perm_middle {a = x} before behind))

empty-ne-middle :
    {A : Type 0} (before : List A) (x : A) (behind : List A)
    → ¬ (◌≡◌ {A = List A} [] (before ++ x ∷ behind))
empty-ne-middle [] x behind e = cc
empty-ne-middle (y ∷ ys) x behind e = cc

module _ {P X T : Type 0} where
  -- Every job that was begun is done or in flight, once.
  pub IsBalanced : RunState P X T → Type 0
  IsBalanced s = Perm s.dispatched (s.solved ++ s.in_flight)

  after_match-IsBalanced :
      (l : Bool) (p : P) (o : Outcome T) (s : RunState P X T)
      → IsBalanced s
      → IsBalanced (after_match l p o s)
  unfolding after_match dispatch IsBalanced
  after_match-IsBalanced l p (hit t) s h =
      rw (sym (append_assoc s.solved s.in_flight (record { plugin = p; intent = t } ∷ [])))
        (Perm.append h (Perm.refl _))
  after_match-IsBalanced l p miss s h = h
  after_match-IsBalanced l p match_panic s h = h

  finish-IsBalanced :
      (l : Bool) (how : Ending) (before : List (Job P T)) (job : Job P T) (behind : List (Job P T))
      (s : RunState P X T)
      → s.in_flight ≡ before ++ job ∷ behind
      → IsBalanced s
      → IsBalanced (finish l how before job behind s)
  unfolding finish IsBalanced
  finish-IsBalanced l finished before job behind s e h =
      Perm.trans (subst (λ js. Perm s.dispatched (s.solved ++ js)) e h)
        (move_middle s.solved before behind job)
  finish-IsBalanced l solve_panic before job behind s e h =
      Perm.trans (subst (λ js. Perm s.dispatched (s.solved ++ js)) e h)
        (move_middle s.solved before behind job)

  Step-IsBalanced :
      {plugins : List P} {l : Bool} {s s' : RunState P X T}
      → Step plugins l s s'
      → IsBalanced s
      → IsBalanced s'
  unfolding IsBalanced receive match_next
  Step-IsBalanced (take_tx none e) h = h
  Step-IsBalanced (take_tx (some tx) e) h = h
  Step-IsBalanced (stop r e) h = h
  Step-IsBalanced {l} (ask tx p rest outcome e) h = after_match-IsBalanced l p outcome _ h
  Step-IsBalanced (all_asked tx e) h = h
  Step-IsBalanced {l} {s} (end_job how before job behind e) h =
      finish-IsBalanced l how before job behind s e h
  Step-IsBalanced (return_exit r e e') h = h

  -- A Run that has returned has no job in flight.
  IsSettled : RunState P X T → Type 0
  IsSettled s = (r : Exit) → s.phase ≡ returned r → s.in_flight ≡ []

  pub after_match-phase :
      (l : Bool) (p : P) (o : Outcome T) (s : RunState P X T)
      → (after_match l p o s).phase ≡ s.phase
  unfolding after_match dispatch
  after_match-phase l p (hit t) s = refl
  after_match-phase l p miss s = refl
  after_match-phase l p match_panic s = refl

  pub finish-phase :
      (l : Bool) (how : Ending) (before : List (Job P T)) (job : Job P T) (behind : List (Job P T))
      (s : RunState P X T)
      → (finish l how before job behind s).phase ≡ s.phase
  unfolding finish
  finish-phase l finished before job behind s = refl
  finish-phase l solve_panic before job behind s = refl

  Step-IsSettled :
      {plugins : List P} {l : Bool} {s s' : RunState P X T}
      → Step plugins l s s'
      → IsSettled s
      → IsSettled s'
  unfolding IsSettled receive match_next
  Step-IsSettled (take_tx none e) h r g = cc
  Step-IsSettled (take_tx (some tx) e) h r g = cc
  Step-IsSettled (stop q e) h r g = cc
  Step-IsSettled {l} {s} (ask tx p rest outcome e) h r g =
      let k =
        sym (
          after_match-phase l p outcome
            (record s { phase = matching tx rest; asked = s.asked ++ (tx, p) ∷ [] }))
        ∙ g in
      cc
  Step-IsSettled (all_asked tx e) h r g = cc
  Step-IsSettled {l} {s} (end_job how before job behind e) h r g =
      let k = h r (sym (finish-phase l how before job behind s) ∙ g) in
      absurd (empty-ne-middle before job behind (sym k ∙ e))
  Step-IsSettled (return_exit q e e') h r g = e'

  Steps-IsBalanced :
      {plugins : List P} {l : Bool} {s s' : RunState P X T}
      → Steps plugins l s s'
      → IsBalanced s × IsSettled s
      → IsBalanced s' × IsSettled s'
  Steps-IsBalanced here h = h
  Steps-IsBalanced (then r t) h =
      let (b, q) = Steps-IsBalanced r h in (Step-IsBalanced t b, Step-IsSettled t q)

  -- When Run returns, by a canceled context or a closed channel, the Solves that have run are the
  -- jobs that were dispatched, each once, whatever the order in which goroutines ended and
  -- whichever of them panicked.
  pub returned_runs-solve :
      (plugins : List P) (has_log : Bool) (s : RunState P X T) (r : Exit)
      → Steps plugins has_log start s
      → s.phase ≡ returned r
      → Perm s.dispatched s.solved
  unfolding IsBalanced IsSettled start
  returned_runs-solve plugins has_log s r steps e =
      let (b, q) = Steps-IsBalanced steps (Perm.refl [], λ x g. refl) in
      subst (λ js. Perm s.dispatched js) (append-nil s.solved)
        (subst (λ js. Perm s.dispatched (s.solved ++ js)) (q r e) b)

  drain :
      (plugins : List P) (l : Bool) (r : Exit) (jobs : List (Job P T)) (s s₀ : RunState P X T)
      → Steps plugins l s₀ s
      → s.phase ≡ draining r
      → s.in_flight ≡ jobs
      → (s' : RunState P X T) × Steps plugins l s₀ s'
        × (s'.phase ≡ returned r)
        × (s'.dispatched ≡ s.dispatched)
  unfolding finish
  drain plugins l r [] s s₀ t e h =
      (record s { phase = returned r }, then t (return_exit r e h), refl, refl)
  drain plugins l r (j ∷ js) s s₀ t e h =
      drain plugins l r js (finish l finished [] j js s) s₀ (then t (end_job finished [] j js h)) e
        refl

  -- Run can return from wg.Wait: from a state in it there are steps to a state that has returned
  -- the same value, and none of them dispatches a job.
  pub draining_runs-return :
      (plugins : List P) (has_log : Bool) (s : RunState P X T) (r : Exit)
      → s.phase ≡ draining r
      → (s' : RunState P X T) × Steps plugins has_log s s'
        × (s'.phase ≡ returned r)
        × (s'.dispatched ≡ s.dispatched)
  draining_runs-return plugins has_log s r e = drain plugins has_log r s.in_flight s s here e refl
