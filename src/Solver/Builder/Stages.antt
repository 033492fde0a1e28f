-- ===== src/Solver/Builder/Stages.antt =====
-- Match of a built plugin against a description of its stages.
use bancod.Prelude.{
  ◌≡◌, refl, subst, ◌∙◌, ap, ◌↔◌, inl, inr, Bool, true, false, List, [], ◌∷◌, Option, All, Result,
  ok, err, Bool-cases,
}
use bancod.Solver.Txmatch.{PsbtPacket, Predicate}
use bancod.Solver.Builder.{
  StageError, skip, failed, panicked, Plugin, Match, matched, of_error, run_filters, run_validators,
  after_validate, after_decode, match_tx,
}

run_filters_iff :
    (fs : List Predicate) (tx : Option PsbtPacket)
    → (run_filters fs tx ≡ true) ↔ All (λ f. f tx ≡ true) fs
unfolding run_filters
run_filters_iff [] tx = (λ h. tt, λ h. refl)
run_filters_iff (f ∷ fs) tx = elim (Bool-cases (f tx)) [
  | inl h ↦ rw h (λ e. (refl, (run_filters_iff fs tx).0 e), λ (g, r). (run_filters_iff fs tx).1 r)
  | inr h ↦ rw h (λ e. cc, λ (g, r). cc)
]

of_error-ne-matched : {T E : Type 0} (x : StageError E) (t : T) → ¬ (of_error x ≡ matched t)
unfolding of_error
of_error-ne-matched skip t e = cc
of_error-ne-matched (failed y) t e = cc
of_error-ne-matched panicked t e = cc

module _ {S T E : Type 0} where
  -- Every validator in order returns (true, nil), each in the world that the one before it left.
  pub data Validates : List (T → S → Result (StageError E) Bool × S) → T → S → S → Type 0 where
    done : {t : T} {s : S} → Validates [] t s s
    next :
        {v : T → S → Result (StageError E) Bool × S}
        {vs : List (T → S → Result (StageError E) Bool × S)} {t : T} {s s' s'' : S}
        → v t s ≡ (ok true, s')
        → Validates vs t s' s''
        → Validates (v ∷ vs) t s s''

  after_validate-eq-matched :
      (rest : S → Match T E × S) (r : Result (StageError E) Bool × S) (u : T) (s' : S)
      → after_validate rest r ≡ (matched u, s')
      → (s₁ : S) × (r ≡ (ok true, s₁)) × (rest s₁ ≡ (matched u, s'))
  unfolding after_validate
  after_validate-eq-matched rest (ok true, s) u s' e = (s, refl, e)
  after_validate-eq-matched rest (ok false, s) u s' e = let q = ap (λ p. p.0) e in cc
  after_validate-eq-matched rest (err x, s) u s' e =
      absurd (of_error-ne-matched x u (ap (λ p. p.0) e))

  run_validators-Validates :
      (vs : List (T → S → Result (StageError E) Bool × S)) (t u : T) (s s' : S)
      → run_validators vs t s ≡ (matched u, s')
      → (t ≡ u) × Validates vs t s s'
  unfolding run_validators
  run_validators-Validates [] t u s s' e =
      let q = ap (λ p. p.0) e in (cc, subst (λ x. Validates [] t s x) (ap (λ p. p.1) e) done)
  run_validators-Validates (v ∷ vs) t u s s' e =
      let (s₁, h, e') = after_validate-eq-matched (λ x. run_validators vs t x) (v t s) u s' e in
      let (q, r) = run_validators-Validates vs t u s₁ s' e' in (q, next h r)

  Validates-run_validators :
      {vs : List (T → S → Result (StageError E) Bool × S)} {t : T} {s s' : S}
      → Validates vs t s s'
      → run_validators vs t s ≡ (matched t, s')
  unfolding run_validators after_validate
  Validates-run_validators done = refl
  Validates-run_validators (next {vs = vs} {t = t} e r) =
      ap (λ x. after_validate (λ s₁. run_validators vs t s₁) x) e ∙ Validates-run_validators r

  after_decode-eq-matched :
      (vs : List (T → S → Result (StageError E) Bool × S)) (r : Result (StageError E) T × S) (t : T)
      (s' : S)
      → after_decode vs r ≡ (matched t, s')
      → (s₁ : S) × (r ≡ (ok t, s₁)) × Validates vs t s₁ s'
  unfolding after_decode
  after_decode-eq-matched vs (ok u, s) t s' e =
      let (q, r) = run_validators-Validates vs u t s s' e in
      (s, ap (λ x. (ok x, s)) q, subst (λ x. Validates vs x s s') q r)
  after_decode-eq-matched vs (err x, s) t s' e = absurd (of_error-ne-matched x t (ap (λ p. p.0) e))

  -- Match returns an intent, with true, exactly where every filter passes the transaction, the
  -- decoder returns that intent and every validator, in order, returns (true, nil) for it; and the
  -- world is left as the last validator left it.
  pub match_tx-eq-matched_iff :
      (p : Plugin S T E) (tx : Option PsbtPacket) (s : S) (t : T) (s' : S)
      → (match_tx p tx s ≡ (matched t, s')) ↔ (
          All (λ f. f tx ≡ true) p.filters
          × ((s₁ : S) × (p.decode tx s ≡ (ok t, s₁)) × Validates p.validators t s₁ s'))
  unfolding match_tx after_decode
  match_tx-eq-matched_iff p tx s t s' = elim (Bool-cases (run_filters p.filters tx)) [
    | inl h ↦ rw h (
      λ e. (
        (run_filters_iff p.filters tx).0 h,
        after_decode-eq-matched p.validators (p.decode tx s) t s' e,
      ),
      λ (a, (s₁, d, v)). ap (λ r. after_decode p.validators r) d ∙ Validates-run_validators v,
    )
    | inr h ↦ rw h (
      λ e. let q = ap (λ p. p.0) e in cc,
      λ (a, r). let g = (run_filters_iff p.filters tx).1 a in cc,
    )
  ]
