-- ===== src/Contract/Taker/Fulfill.antt =====
-- pkg/contract/taker.go: FulfillOffer.
pub mod Tests
pub mod Amounts
pub mod Consistent
pub mod Signed
pub mod Submitted
use bancod.Prelude.{
  List, [], ◌∷◌, none, some, Bytes, bytes_equal, to_i64, ℕ, ltb, ◌^◌, map, Result, ok, err, ◌>>=◌,
  ◌>>◌, guard, or_fail, add_u64, sub_u64, length,
}
use bancod.Contract.ArkLib.{ArkLib}
use bancod.Contract.Offer.{Offer}
use bancod.Contract.Assets.{Vtxo, AssetLib, Transfers, build_fulfill_asset_packet}
use bancod.Contract.Script.{Closure, ScriptLib, vtxo_script, fulfill_script}
use bancod.Contract.Taker.{
  ConfigData, VtxoWithTapTree, VtxoInput, TxOut, TakerEnv, FulfillError, config_failed,
  bad_checkpoint_tapscript, bad_vtxo_script, bad_taptree, bad_swap_pk_script, offer_inconsistency,
  get_vtxos_failed, no_swap_vtxo, no_wallet, list_vtxos_failed, no_vtxos, get_addresses_failed,
  no_matching_vtxos, new_address_failed, bad_taker_address, bad_taker_pk_script, insufficient_btc,
  bad_fulfill_script, bad_introspector_packet, bad_asset_packet, bad_extension, build_failed,
  encode_failed, sign_failed, submit_failed, bad_final_tx,
}
use bancod.Contract.Taker.Inputs.{select_vtxos, total_btc, swap_input, taker_inputs}

-- A failure of another component, under the name that FulfillOffer gives it.
abbrev pub wrapped {ℓ} :
    {E : Type 0} {B : Type ℓ} → Result E B → FulfillError → Result FulfillError B
wrapped (ok b) e = ok b
wrapped (err x) e = err e

-- The first element, or the error of an empty list.
abbrev pub first_of_list {ℓ} : {B : Type ℓ} → List B → FulfillError → Result FulfillError B
first_of_list [] e = err e
first_of_list (b ∷ bs) e = ok b

abbrev pub dust : ℕ
dust = 330

-- The bits of makerBtcAmount, an int64.
unfoldable pub maker_btc_amount : {A K : Type 0} → Offer A K → ℕ
maker_btc_amount o = elim o.want_asset [ none ↦ o.want_amount | some a ↦ dust ]

-- The bits of btcChange, where it is not negative.
unfoldable pub btc_change : ℕ → ℕ → Result FulfillError ℕ
btc_change total maker_btc = do
  let change = sub_u64 total maker_btc
  guard (ltb change (2 ^ 63)) insufficient_btc
  ok change

-- The swap output's contract and VTXO, after the checks on them.
pub record Swap (K R : Type 0) : Type 0 where
  pub fulfill : Closure K
  pub closures : List (Closure K)
  pub tree : R
  pub vtxo : Vtxo

-- What the taker puts in, and where it is paid.
pub record Taker : Type 0 where
  pub vtxos : List VtxoWithTapTree
  pub pk_script : Bytes

-- What is sent to the introspector.
pub record Submission : Type 0 where
  pub inputs : List VtxoInput
  pub outputs : List TxOut
  pub ark_tx : Bytes
  pub checkpoints : List Bytes

module _ {A K R X : Type 0} (lib : ArkLib A K) (scripts : ScriptLib K) (assets : AssetLib A)
    (env : TakerEnv A K R X) where
  -- The contract is rebuilt, and must be the one that the offer names.
  unfoldable pub check_swap : ConfigData K → Offer A K → Result FulfillError (Swap K R)
  check_swap cfg o = do
    closures ← wrapped (vtxo_script lib scripts cfg.signer_pub_key o) bad_vtxo_script
    key ← or_fail (env.tap_key closures) bad_taptree
    tree ← or_fail (env.tap_tree closures) bad_taptree
    pk_script ← or_fail (env.p2tr_script key) bad_swap_pk_script
    guard (bytes_equal pk_script o.swap_pk_script) offer_inconsistency
    vtxos ← or_fail (env.get_vtxos (env.encode_hex pk_script)) get_vtxos_failed
    vtxo ← first_of_list vtxos no_swap_vtxo
    fulfill ← first_of_list closures bad_vtxo_script
    ok (record { fulfill = fulfill; closures = closures; tree = tree; vtxo = vtxo })

  pub choose_taker : ConfigData K → Result FulfillError Taker
  choose_taker cfg = do
    guard env.provides_wallet no_wallet
    spendable ← or_fail env.list_spendable_vtxos list_vtxos_failed
    guard (ltb 0 (length spendable)) no_vtxos
    addrs ← or_fail env.get_addresses get_addresses_failed
    let chosen = select_vtxos env cfg addrs spendable
    guard (ltb 0 (length chosen)) no_matching_vtxos
    address ← or_fail env.new_offchain_address new_address_failed
    key ← or_fail (env.decode_address address) bad_taker_address
    pk_script ← or_fail (env.p2tr_script key) bad_taker_pk_script
    ok (record { vtxos = chosen; pk_script = pk_script })

  -- The extension output: the introspector packet of the fulfill script, and the asset packet.
  unfoldable pub fulfill_extension :
      (Transfers → Transfers) → Offer A K → Swap K R → Taker → Result FulfillError TxOut
  fulfill_extension range_order o swap taker = do
    script ← wrapped (fulfill_script lib scripts o) bad_fulfill_script
    packet ← or_fail (env.introspector_packet script) bad_introspector_packet
    flows ←
        wrapped
          (build_fulfill_asset_packet lib assets range_order swap.vtxo
            (map (λ (tv : VtxoWithTapTree). tv.vtxo) taker.vtxos) o)
          bad_asset_packet
    or_fail (env.extension_tx_out packet flows) bad_extension

  -- The maker's output, the taker's with the swap's BTC and the change, and the extension.
  unfoldable pub fulfill_outputs :
      (Transfers → Transfers) → Offer A K → Swap K R → Taker → Result FulfillError (List TxOut)
  fulfill_outputs range_order o swap taker = do
    let maker_btc = maker_btc_amount o
    change ← btc_change (total_btc env 0 taker.vtxos) maker_btc
    extension ← fulfill_extension range_order o swap taker
    ok (
        record { value = to_i64 maker_btc; pk_script = o.maker_pk_script }
        ∷ record { value = to_i64 (add_u64 swap.vtxo.amount change); pk_script = taker.pk_script }
        ∷ extension
        ∷ [])

  -- The checkpoints, each encoded and signed.
  pub sign_checkpoints : List X → Result FulfillError (List Bytes)
  sign_checkpoints [] = ok []
  sign_checkpoints (x ∷ xs) = do
    raw ← or_fail (env.b64_encode x) encode_failed
    signed ← or_fail (env.sign_transaction raw) sign_failed
    rest ← sign_checkpoints xs
    ok (signed ∷ rest)

  -- The input that spends the swap VTXO, and those that spend the taker's.
  pub fulfill_inputs : Swap K R → Taker → Result FulfillError (List VtxoInput)
  fulfill_inputs swap taker = do
    first ← swap_input env swap.fulfill swap.closures swap.tree swap.vtxo
    others ← taker_inputs env taker.vtxos
    ok (first ∷ others)

  -- From BuildTxs to the signed checkpoints.
  pub sign_bundle : List VtxoInput → List TxOut → Bytes → Result FulfillError Submission
  sign_bundle inputs outputs checkpoint = do
    txs ← or_fail (env.build_txs inputs outputs checkpoint) build_failed
    raw ← or_fail (env.b64_encode txs.ark_tx) encode_failed
    signed ← or_fail (env.sign_transaction raw) sign_failed
    checkpoints ← sign_checkpoints txs.checkpoints
    ok (record { inputs = inputs; outputs = outputs; ark_tx = signed; checkpoints = checkpoints })

  -- Everything before SubmitTx.
  pub prepare_fulfill : (Transfers → Transfers) → Offer A K → Result FulfillError Submission
  prepare_fulfill range_order o = do
    cfg ← or_fail env.get_config_data config_failed
    checkpoint ← or_fail (env.decode_hex cfg.checkpoint_tapscript) bad_checkpoint_tapscript
    swap ← check_swap cfg o
    taker ← choose_taker cfg
    outputs ← fulfill_outputs range_order o swap taker
    inputs ← fulfill_inputs swap taker
    sign_bundle inputs outputs checkpoint

  -- The result is FulfillResult's ArkTxid.
  pub fulfill_offer : (Transfers → Transfers) → Offer A K → Result FulfillError Bytes
  fulfill_offer range_order o = do
    bundle ← prepare_fulfill range_order o
    final ← or_fail (env.submit_tx bundle.ark_tx bundle.checkpoints) submit_failed
    or_fail (env.tx_id_of_raw final) bad_final_tx
