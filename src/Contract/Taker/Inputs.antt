-- ===== src/Contract/Taker/Inputs.antt =====
-- pkg/contract/taker.go, FulfillOffer: the choice of the taker's VTXOs, and the inputs.
pub mod Selected
pub mod Totals
pub mod Amounts
use bancod.Prelude.{
  Bool, false, List, [], ◌∷◌, ◌++◌, none, some, if◌then◌else◌, Bytes, bytes_equal, to_i64, ℕ,
  Result, ok, err, ◌>>=◌, or_fail, add_u64,
}
use bancod.Contract.Assets.{Vtxo}
use bancod.Contract.Script.{Closure}
use bancod.Contract.Taker.{
  ConfigData, OffchainAddr, VtxoWithTapTree, MerkleProof, VtxoInput, TakerEnv, FulfillError,
  bad_closure_script, bad_merkle_proof, bad_control_block, bad_tapscripts, bad_txid,
  bad_taker_script, no_forfeit_closures, bad_taptree,
}

module _ {A K R X : Type 0} (env : TakerEnv A K R X) where
  -- The test of the inner loop: not recoverable, and at this address. An address that cannot be
  -- computed does not match.
  unfoldable pub is_at : ConfigData K → OffchainAddr → Vtxo → Bool
  is_at cfg addr v =
      if v.recoverable then false else elim (env.vtxo_address v cfg.signer_pub_key cfg.network) [
        | none ↦ false
        | some a ↦ bytes_equal a addr.address
      ]

  -- The inner loop, over the spendable VTXOs.
  unfoldable pub at_address : ConfigData K → OffchainAddr → List Vtxo → List VtxoWithTapTree
  at_address cfg addr [] = []
  at_address cfg addr (v ∷ vs) =
      let rest = at_address cfg addr vs in
      if is_at cfg addr v then record { vtxo = v; tapscripts = addr.tapscripts } ∷ rest else rest

  -- The outer loop, over the wallet's addresses.
  unfoldable pub select_vtxos : ConfigData K → List OffchainAddr → List Vtxo → List VtxoWithTapTree
  select_vtxos cfg [] vs = []
  select_vtxos cfg (addr ∷ addrs) vs = at_address cfg addr vs ++ select_vtxos cfg addrs vs

  -- `totalTakerBtc += v.Amount`
  unfoldable pub total_btc : ℕ → List VtxoWithTapTree → ℕ
  total_btc acc [] = acc
  total_btc acc (v ∷ vs) = total_btc (add_u64 acc v.vtxo.amount) vs

  -- The leaf of a closure: its script, its merkle proof and the parsed control block.
  unfoldable pub leaf : Closure K → R → Result FulfillError (MerkleProof × Bytes)
  leaf c tree = do
    script ← or_fail (env.closure_script c) bad_closure_script
    proof ← or_fail (env.merkle_proof tree (env.tap_hash script)) bad_merkle_proof
    block ← or_fail (env.parse_control_block proof.control_block) bad_control_block
    ok (proof, block)

  unfoldable pub vtxo_input : Bytes → Vtxo → MerkleProof → Bytes → List Bytes → VtxoInput
  vtxo_input hash v proof block tapscripts = record {
    hash = hash;
    index = v.vout;
    amount = to_i64 v.amount;
    control_block = block;
    revealed_script = proof.script;
    revealed_tapscripts = tapscripts;
  }

  -- The input that spends the swap VTXO through the fulfill closure, the first of its closures.
  unfoldable pub swap_input :
      Closure K → List (Closure K) → R → Vtxo → Result FulfillError VtxoInput
  swap_input fulfill closures tree swap = do
    (proof, block) ← leaf fulfill tree
    tapscripts ← or_fail (env.encode_closures closures) bad_tapscripts
    hash ← or_fail (env.hash_from_str swap.txid) bad_txid
    ok (vtxo_input hash swap proof block tapscripts)

  -- forfeitClosures[0]
  unfoldable pub first_forfeit : List (Closure K) → Result FulfillError (Closure K)
  first_forfeit [] = err no_forfeit_closures
  first_forfeit (c ∷ cs) = ok c

  -- The input that spends a VTXO of the taker through its first forfeit closure.
  unfoldable pub taker_input : VtxoWithTapTree → Result FulfillError VtxoInput
  taker_input tv = do
    hash ← or_fail (env.hash_from_str tv.vtxo.txid) bad_txid
    closures ← or_fail (env.parse_vtxo_script tv.tapscripts) bad_taker_script
    forfeit ← first_forfeit (env.forfeit_closures closures)
    script ← or_fail (env.closure_script forfeit) bad_closure_script
    tree ← or_fail (env.tap_tree closures) bad_taptree
    proof ← or_fail (env.merkle_proof tree (env.tap_hash script)) bad_merkle_proof
    block ← or_fail (env.parse_control_block proof.control_block) bad_control_block
    tapscripts ← or_fail (env.encode_closures closures) bad_tapscripts
    ok (vtxo_input hash tv.vtxo proof block tapscripts)

  unfoldable pub taker_inputs : List VtxoWithTapTree → Result FulfillError (List VtxoInput)
  taker_inputs [] = ok []
  taker_inputs (tv ∷ tvs) = do x ← taker_input tv; xs ← taker_inputs tvs; ok (x ∷ xs)
