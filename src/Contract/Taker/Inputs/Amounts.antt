-- ===== src/Contract/Taker/Inputs/Amounts.antt =====
-- The amounts of the inputs that FulfillOffer builds.
use bancod.Prelude.{
  ℕ, ◌^◌, ◌≡◌, sym, ◌∙◌, ap, ◌<◌, List, [], ◌∷◌, map, pos, to_i64, ok, or_fail, >>=-eq-ok,
  ok-injective, arith,
}
use bancod.Contract.Assets.{Vtxo}
use bancod.Contract.Script.{Closure}
use bancod.Contract.Taker.{VtxoWithTapTree, VtxoInput, TakerEnv}
use bancod.Contract.Taker.Inputs.{
  leaf, vtxo_input, swap_input, taker_input, taker_inputs, first_forfeit,
}
use bancod.Contract.Taker.Inputs.Totals.{sum_btc}

pub to_i64-small : (n : ℕ) → n < 2 ^ 63 → to_i64 n ≡ pos n
to_i64-small n h = ground arith

module _ {A K R X : Type 0} (env : TakerEnv A K R X) where
  pub swap_input-amount :
      (fulfill : Closure K) (closures : List (Closure K)) (tree : R) (swap : Vtxo) (x : VtxoInput)
      → swap_input env fulfill closures tree swap ≡ ok x
      → x.amount ≡ to_i64 swap.amount
  unfolding swap_input vtxo_input
  swap_input-amount fulfill closures tree swap x e =
      let (proof, e₁, f₁) = >>=-eq-ok (leaf env fulfill tree) _ e in
      let (tapscripts, e₂, f₂) = >>=-eq-ok (or_fail (env.encode_closures closures) _) _ f₁ in
      let (hash, e₃, f₃) = >>=-eq-ok (or_fail (env.hash_from_str swap.txid) _) _ f₂ in
      sym (ap (λ (y : VtxoInput). y.amount) (ok-injective _ _ f₃))

  taker_input-amount :
      (tv : VtxoWithTapTree) (x : VtxoInput)
      → taker_input env tv ≡ ok x
      → x.amount ≡ to_i64 tv.vtxo.amount
  unfolding taker_input vtxo_input
  taker_input-amount tv x e =
      let (hash, e₁, f₁) = >>=-eq-ok (or_fail (env.hash_from_str tv.vtxo.txid) _) _ e in
      let (closures, e₂, f₂) = >>=-eq-ok (or_fail (env.parse_vtxo_script tv.tapscripts) _) _ f₁ in
      let (forfeit, e₃, f₃) = >>=-eq-ok (first_forfeit env (env.forfeit_closures closures)) _ f₂ in
      let (script, e₄, f₄) = >>=-eq-ok (or_fail (env.closure_script forfeit) _) _ f₃ in
      let (tree, e₅, f₅) = >>=-eq-ok (or_fail (env.tap_tree closures) _) _ f₄ in
      let (proof, e₆, f₆) =
        >>=-eq-ok (or_fail (env.merkle_proof tree (env.tap_hash script)) _) _ f₅ in
      let (block, e₇, f₇) =
        >>=-eq-ok (or_fail (env.parse_control_block proof.control_block) _) _ f₆ in
      let (tapscripts, e₈, f₈) = >>=-eq-ok (or_fail (env.encode_closures closures) _) _ f₇ in
      sym (ap (λ (y : VtxoInput). y.amount) (ok-injective _ _ f₈))

  pub taker_inputs-amounts :
      (tvs : List VtxoWithTapTree) (xs : List VtxoInput)
      → sum_btc tvs < 2 ^ 63
      → taker_inputs env tvs ≡ ok xs
      → map (λ (x : VtxoInput). x.amount) xs
        ≡ map (λ (tv : VtxoWithTapTree). pos tv.vtxo.amount) tvs
  unfolding taker_inputs
  taker_inputs-amounts [] xs h e = ap (map (λ (x : VtxoInput). x.amount)) (sym (ok-injective _ _ e))
  taker_inputs-amounts (tv ∷ tvs) xs h e =
      let (x, e₁, f₁) = >>=-eq-ok (taker_input env tv) _ e in
      let (ys, e₂, f₂) = >>=-eq-ok (taker_inputs env tvs) _ f₁ in
      let here = taker_input-amount tv x e₁ ∙ to_i64-small tv.vtxo.amount (omega arith) in
      let rest = taker_inputs-amounts tvs ys (omega arith) e₂ in
      ap (map (λ (x : VtxoInput). x.amount)) (sym (ok-injective _ _ f₂))
      ∙ ap (λ n. n ∷ map (λ (x : VtxoInput). x.amount) ys) here
      ∙ ap (λ ns. pos tv.vtxo.amount ∷ ns) rest
