-- ===== src/Contract/Taker/Inputs/Totals.antt =====
-- The taker's BTC, as a plain sum.
use bancod.Prelude.{ℕ, ◌+◌, ◌≡◌, List, [], ◌∷◌, IsU64, add_u64, arith}
use bancod.Contract.Taker.{VtxoWithTapTree, TakerEnv}
use bancod.Contract.Taker.Inputs.{total_btc}

abbrev pub sum_btc : List VtxoWithTapTree → ℕ
sum_btc [] = 0
sum_btc (v ∷ vs) = v.vtxo.amount + sum_btc vs

module _ {A K R X : Type 0} (env : TakerEnv A K R X) where
  pub total_btc-sum_btc :
      (acc : ℕ) (vs : List VtxoWithTapTree)
      → IsU64 (acc + sum_btc vs)
      → total_btc env acc vs ≡ acc + sum_btc vs
  unfolding total_btc
  total_btc-sum_btc acc [] h = omega arith
  total_btc-sum_btc acc (v ∷ vs) h =
      ground (arith, total_btc-sum_btc (add_u64 acc v.vtxo.amount) vs)
