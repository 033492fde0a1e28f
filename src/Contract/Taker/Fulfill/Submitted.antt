-- ===== src/Contract/Taker/Fulfill/Submitted.antt =====
-- What FulfillOffer hands the introspector where it returns a transaction's id.
use bancod.Prelude.{◌+◌, ◌-◌, ◌≡◌, ◌≤◌, List, [], ◌∷◌, map, some, Bytes, pos}
use bancod.Contract.ArkLib.{ArkLib}
use bancod.Contract.Offer.{Offer}
use bancod.Contract.Assets.{AssetLib, Transfers, Vtxo}
use bancod.Contract.Script.{ScriptLib}
use bancod.Contract.Taker.{ConfigData, VtxoWithTapTree, VtxoInput, TxOut, TakerEnv}
use bancod.Contract.Taker.Inputs.Totals.{sum_btc}
use bancod.Contract.Taker.Fulfill.{Taker, Submission, maker_btc_amount}
use bancod.Contract.Taker.Fulfill.Consistent.{IsConsistent}
use bancod.Contract.Taker.Fulfill.Signed.{IsExtension, IsSigned}

module _ {A K R X : Type 0} (lib : ArkLib A K) (scripts : ScriptLib K) (assets : AssetLib A)
    (env : TakerEnv A K R X) where
  -- What has been submitted for an offer whose fulfillment has the id `txid`.
  pub record IsSubmitted (range_order : Transfers → Transfers) (o : Offer A K) (txid : Bytes)
      : Type 0 where
    pub cfg : ConfigData K
    pub swap : Vtxo
    pub others : List Vtxo
    pub taker : Taker
    pub bundle : Submission
    pub configured : env.get_config_data ≡ some cfg
    pub consistent : IsConsistent lib scripts env cfg.signer_pub_key o
    -- the inputs spend the first VTXO of the offer's script, and the taker's
    pub swap_found : env.get_vtxos (env.encode_hex o.swap_pk_script) ≡ some (swap ∷ others)
    pub inputs_spend :
        map (λ (x : VtxoInput). x.amount) bundle.inputs
        ≡ pos swap.amount ∷ map (λ (tv : VtxoWithTapTree). pos tv.vtxo.amount) taker.vtxos
    -- the maker is paid, and the taker gets the swap's BTC and what is left of the taker's
    pub extension : TxOut
    pub extended : IsExtension lib scripts assets env range_order o swap taker.vtxos extension
    pub covered : maker_btc_amount o ≤ sum_btc taker.vtxos
    pub outputs_pay :
        bundle.outputs
        ≡ record { value = pos (maker_btc_amount o); pk_script = o.maker_pk_script }
          ∷ record {
            value = pos (swap.amount + (sum_btc taker.vtxos - maker_btc_amount o));
            pk_script = taker.pk_script;
          }
          ∷ extension
          ∷ []
    -- the transaction with these inputs and outputs is signed and submitted
    pub checkpoint : Bytes
    pub final : Bytes
    pub signed : IsSigned lib scripts assets env checkpoint bundle
    pub submitted : env.submit_tx bundle.ark_tx bundle.checkpoints ≡ some final
    pub named : env.tx_id_of_raw final ≡ some txid
