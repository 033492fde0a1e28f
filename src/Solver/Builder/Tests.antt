-- ===== src/Solver/Builder/Tests.antt =====
-- A plugin with one filter and one validator.
use bancod.Prelude.{ℕ, ◌+◌, ◌≡◌, ◌↔◌, true, [], ◌∷◌, none, All, ok}
use bancod.Solver.Txmatch.{always}
use bancod.Solver.Builder.{Plugin, matched, match_tx}
use bancod.Solver.Builder.Stages.{Validates, match_tx-eq-matched_iff}

-- The world counts the calls of the validator.
abbrev counting : Plugin ℕ ℕ ℕ
counting = record {
  filters = always true ∷ [];
  decode = λ tx s. (ok 7, s);
  validators = (λ t s. (ok true, s + 1)) ∷ [];
  solve = λ t s. s;
  log = true;
}

match_tx-eq-matched_iff_example : (match_tx counting none 3 ≡ (matched 7, 4)) ↔ (
    All (λ f. f none ≡ true) counting.filters
    × ((s₁ : ℕ) × (counting.decode none 3 ≡ (ok 7, s₁)) × Validates counting.validators 7 s₁ 4))
match_tx-eq-matched_iff_example = match_tx-eq-matched_iff counting none 3 7 4
