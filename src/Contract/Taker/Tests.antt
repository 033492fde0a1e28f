-- ===== src/Contract/Taker/Tests.antt =====
-- A concrete fulfillment.
use bancod.Prelude.{
  ◌+◌, ◌-◌, ◌^◌, ◌≡◌, ◌↔◌, true, refl, List, [], ◌∷◌, Member, text, to_i64, is_negative, ok, err,
  arith,
}
use bancod.Examples.{
  TestAsset, TestKey, lib, scripts, assets, env, gold_offer, btc_offer, swap_vtxo, taker_vtxo, bob,
  p2tr,
}
use bancod.Contract.Offer.{Offer}
use bancod.Contract.Script.{multisig}
use bancod.Contract.Taker.{
  ConfigData, OffchainAddr, VtxoWithTapTree, TxOut, offer_inconsistency, insufficient_btc,
}
use bancod.Contract.Taker.Inputs.{select_vtxos}
use bancod.Contract.Taker.Inputs.Selected.{IsChosen, select_vtxos_iff}
use bancod.Contract.Taker.Fulfill.{
  Swap, Taker, maker_btc_amount, btc_change, check_swap, fulfill_outputs,
}
use bancod.Contract.Taker.Fulfill.Amounts.{btc_change_negative}
use bancod.Contract.Taker.Fulfill.Consistent.{IsConsistent, check_swap-IsConsistent}

abbrev cfg : ConfigData TestKey
cfg = record { checkpoint_tapscript = []; signer_pub_key = bob; network = text "ark" }

abbrev no_swap : Swap TestKey (Unit {0})
no_swap = record { fulfill = multisig []; closures = []; tree = tt; vtxo = swap_vtxo }

-- What the taker takes for the offer.
abbrev gold_swap : Swap TestKey (Unit {0})
gold_swap = elim (check_swap lib scripts assets env cfg gold_offer) [ ok s ↦ s | err e ↦ no_swap ]

checked : check_swap lib scripts assets env cfg gold_offer ≡ ok gold_swap
unfolding check_swap bancod.Contract.Script.vtxo_script bancod.Contract.Script.fulfill_script
    bancod.Contract.Script.maker_witness_program
checked = refl

gold_offer-IsConsistent : IsConsistent lib scripts env bob gold_offer
gold_offer-IsConsistent =
    check_swap-IsConsistent lib scripts env assets cfg gold_offer gold_swap checked

abbrev wallet : Taker
wallet = record { vtxos = record { vtxo = taker_vtxo; tapscripts = [] } ∷ []; pk_script = p2tr bob }

abbrev paid : List TxOut
paid = elim (fulfill_outputs lib scripts assets env (λ ts. ts) btc_offer no_swap wallet) [
  | ok outs ↦ outs
  | err e ↦ []
]

-- An offer for 2^63 + 10000 sats.
abbrev huge_offer : Offer TestAsset TestKey
huge_offer = record btc_offer { want_amount = 2 ^ 63 + 10000 }

btc_change_negative_example :
    (is_negative (to_i64 (maker_btc_amount huge_offer)) ≡ true)
    × (btc_change 9000 (maker_btc_amount huge_offer) ≡ ok (9000 + (2 ^ 64 - (2 ^ 63 + 10000))))
btc_change_negative_example = btc_change_negative huge_offer 9000 refl (omega arith) (omega arith)

abbrev home : OffchainAddr
home = record { address = text "home"; tapscripts = text "leaf" ∷ [] }

abbrev chosen : VtxoWithTapTree
chosen = record { vtxo = taker_vtxo; tapscripts = text "leaf" ∷ [] }

select_vtxos_iff_example : Member chosen (select_vtxos env cfg (home ∷ []) (taker_vtxo ∷ [])) ↔ (
    (addr : OffchainAddr) × Member addr (home ∷ [])
    × IsChosen env cfg addr (taker_vtxo ∷ []) chosen)
select_vtxos_iff_example = select_vtxos_iff env cfg (home ∷ []) (taker_vtxo ∷ []) chosen
