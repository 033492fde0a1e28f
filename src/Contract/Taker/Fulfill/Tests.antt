-- ===== src/Contract/Taker/Fulfill/Tests.antt =====
-- An offer of gold, fulfilled by a taker whose wallet signs with its first closure.
use bancod.Prelude.{Result, ℕ, ◌≡◌, refl, [], ◌∷◌, Bytes, text, ok, err}
use bancod.Examples.{TestAsset, TestKey, lib, scripts, assets, env, gold_offer, bob}
use bancod.Contract.Script.{multisig}
use bancod.Contract.Taker.{ConfigData, TakerEnv, FulfillError}
use bancod.Contract.Taker.Inputs.Totals.{sum_btc}
use bancod.Contract.Taker.Fulfill.{Swap, Taker, check_swap, choose_taker, fulfill_offer}

abbrev pub wallet_env : TakerEnv TestAsset TestKey (Unit {0}) Bytes
wallet_env = record env { forfeit_closures = λ cs. multisig [] ∷ [] }

abbrev cfg : ConfigData TestKey
cfg = record { checkpoint_tapscript = []; signer_pub_key = bob; network = text "ark" }

pub fulfilled : fulfill_offer lib scripts assets wallet_env (λ ts. ts) gold_offer ≡ ok (text "ark")
unfolding fulfill_offer bancod.Contract.Assets.add_input bancod.Contract.Assets.add_output
    bancod.Contract.Assets.build_fulfill_asset_packet bancod.Contract.Assets.find_transfer
    bancod.Contract.Assets.give_change bancod.Contract.Assets.group_packet
    bancod.Contract.Assets.other_groups bancod.Contract.Assets.register_assets
    bancod.Contract.Assets.register_takers bancod.Contract.Assets.route_change
    bancod.Contract.Assets.route_wanted bancod.Contract.Assets.total_in
    bancod.Contract.Assets.total_out bancod.Contract.Assets.wanted_group
    bancod.Contract.Script.fulfill_ops bancod.Contract.Script.fulfill_script
    bancod.Contract.Script.maker_witness_program bancod.Contract.Script.script_pub_key_check
    bancod.Contract.Script.vtxo_script bancod.Contract.Taker.Fulfill.btc_change
    bancod.Contract.Taker.Fulfill.check_swap bancod.Contract.Taker.Fulfill.choose_taker
    bancod.Contract.Taker.Fulfill.fulfill_extension bancod.Contract.Taker.Fulfill.fulfill_inputs
    bancod.Contract.Taker.Fulfill.fulfill_outputs bancod.Contract.Taker.Fulfill.maker_btc_amount
    bancod.Contract.Taker.Fulfill.prepare_fulfill bancod.Contract.Taker.Fulfill.sign_bundle
    bancod.Contract.Taker.Fulfill.sign_checkpoints bancod.Contract.Taker.Inputs.at_address
    bancod.Contract.Taker.Inputs.first_forfeit bancod.Contract.Taker.Inputs.is_at
    bancod.Contract.Taker.Inputs.leaf bancod.Contract.Taker.Inputs.select_vtxos
    bancod.Contract.Taker.Inputs.swap_input bancod.Contract.Taker.Inputs.taker_input
    bancod.Contract.Taker.Inputs.taker_inputs bancod.Contract.Taker.Inputs.total_btc
    bancod.Contract.Taker.Inputs.vtxo_input
fulfilled = refl

abbrev swap_btc : Result FulfillError (Swap TestKey (Unit {0})) → ℕ
swap_btc (ok s) = s.vtxo.amount
swap_btc (err e) = 0

abbrev taker_btc : Result FulfillError Taker → ℕ
taker_btc (ok t) = sum_btc t.vtxos
taker_btc (err e) = 0
