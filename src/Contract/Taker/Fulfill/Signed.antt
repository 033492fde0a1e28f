-- ===== src/Contract/Taker/Fulfill/Signed.antt =====
-- The swap VTXO, the inputs, the extension and the signatures of FulfillOffer.
use bancod.Contract.Assets.{AssetGroup, Transfers, build_fulfill_asset_packet}
use bancod.Contract.Script.{fulfill_script}
use bancod.Contract.Taker.Fulfill.{fulfill_extension}
use bancod.Contract.Taker.Fulfill.Consistent.{wrapped-eq-ok}
use bancod.Prelude.{
  Option, ℕ, ◌+◌, ◌^◌, ◌≡◌, refl, sym, ◌∙◌, ap, subst, ◌<◌, List, [], ◌∷◌, map, some, Bytes, pos,
  to_i64, ok, or_fail, guard, >>=-eq-ok, or_fail-eq-ok, ok-injective, bytes_equal, bytes_equal→eq,
  arith,
}
use bancod.Contract.ArkLib.{ArkLib}
use bancod.Contract.Offer.{Offer}
use bancod.Contract.Assets.{AssetLib, Vtxo}
use bancod.Contract.Script.{ScriptLib, vtxo_script}
use bancod.Contract.Taker.{
  ConfigData, VtxoWithTapTree, VtxoInput, TxOut, BuiltTxs, TakerEnv, FulfillError,
  offer_inconsistency,
}
use bancod.Contract.Taker.Inputs.{swap_input, taker_inputs}
use bancod.Contract.Taker.Inputs.Totals.{sum_btc}
use bancod.Contract.Taker.Inputs.Amounts.{to_i64-small, swap_input-amount, taker_inputs-amounts}
use bancod.Contract.Taker.Fulfill.{
  Swap, Taker, Submission, wrapped, first_of_list, check_swap, sign_checkpoints, fulfill_inputs,
  sign_bundle,
}
use bancod.Contract.Taker.Fulfill.Consistent.{guard-eq-ok}

first_of_list-ok :
    {B : Type 0} (bs : List B) (x : FulfillError) (b : B)
    → first_of_list bs x ≡ ok b
    → (rest : List B) × (bs ≡ b ∷ rest)
first_of_list-ok [] x b e = absurd cc
first_of_list-ok (c ∷ bs) x b e = (bs, cc)

module _ {A K R X : Type 0} (lib : ArkLib A K) (scripts : ScriptLib K) (assets : AssetLib A)
    (env : TakerEnv A K R X) where
  -- The swap VTXO is the first that the indexer has for the offer's script.
  first_listed :
      (script script' : Bytes) (vtxos rest : List Vtxo) (v w : Vtxo)
      → script ≡ script'
      → env.get_vtxos (env.encode_hex script) ≡ some vtxos
      → vtxos ≡ v ∷ rest
      → v ≡ w
      → env.get_vtxos (env.encode_hex script') ≡ some (w ∷ rest)
  first_listed script script' vtxos rest v w same found listed taken = cc

  pub check_swap-found :
      (cfg : ConfigData K) (o : Offer A K) (swap : Swap K R)
      → check_swap lib scripts assets env cfg o ≡ ok swap
      → (others : List Vtxo) × (env.get_vtxos (env.encode_hex o.swap_pk_script)
          ≡ some (swap.vtxo ∷ others))
  unfolding check_swap
  check_swap-found cfg o swap e =
      let (closures, e₁, f₁) =
        >>=-eq-ok (wrapped (vtxo_script lib scripts cfg.signer_pub_key o) _) _ e in
      let (key, e₂, f₂) = >>=-eq-ok (or_fail (env.tap_key closures) _) _ f₁ in
      let (tree, e₃, f₃) = >>=-eq-ok (or_fail (env.tap_tree closures) _) _ f₂ in
      let (script, e₄, f₄) = >>=-eq-ok (or_fail (env.p2tr_script key) _) _ f₃ in
      let (same, e₅, f₅) =
        >>=-eq-ok (guard (bytes_equal script o.swap_pk_script) offer_inconsistency) _ f₄ in
      let (vtxos, e₆, f₆) = >>=-eq-ok (or_fail (env.get_vtxos (env.encode_hex script)) _) _ f₅ in
      let (vtxo, e₇, f₇) = >>=-eq-ok (first_of_list vtxos _) _ f₆ in
      let (fulfill, e₈, f₈) = >>=-eq-ok (first_of_list closures _) _ f₇ in
      let (rest, listed) = first_of_list-ok vtxos _ vtxo e₇ in
      (
        rest,
        first_listed script o.swap_pk_script vtxos rest vtxo swap.vtxo
            (bytes_equal→eq _ _ (guard-eq-ok _ _ e₅)) (or_fail-eq-ok _ _ vtxos e₆) listed
            (ap (λ (s : Swap K R). s.vtxo) (ok-injective _ _ f₈)),
      )

  -- The transaction with the bundle's inputs and outputs, and its checkpoints, encoded and signed.
  pub record IsSigned (checkpoint : Bytes) (bundle : Submission) : Type 0 where
    pub txs : BuiltTxs X
    pub raw : Bytes
    pub built : env.build_txs bundle.inputs bundle.outputs checkpoint ≡ some txs
    pub encoded : env.b64_encode txs.ark_tx ≡ some raw
    pub signed : env.sign_transaction raw ≡ some bundle.ark_tx
    pub checkpoints_signed :
        sign_checkpoints lib scripts assets env txs.checkpoints ≡ ok bundle.checkpoints

  pub sign_bundle-IsSigned :
      (inputs : List VtxoInput) (outputs : List TxOut) (checkpoint : Bytes) (bundle : Submission)
      → sign_bundle lib scripts assets env inputs outputs checkpoint ≡ ok bundle
      → IsSigned checkpoint bundle × (bundle.inputs ≡ inputs) × (bundle.outputs ≡ outputs)
  unfolding sign_bundle
  sign_bundle-IsSigned inputs outputs checkpoint bundle e =
      let (txs, e₁, f₁) = >>=-eq-ok (or_fail (env.build_txs inputs outputs checkpoint) _) _ e in
      let (raw, e₂, f₂) = >>=-eq-ok (or_fail (env.b64_encode txs.ark_tx) _) _ f₁ in
      let (signed, e₃, f₃) = >>=-eq-ok (or_fail (env.sign_transaction raw) _) _ f₂ in
      let (checkpoints, e₄, f₄) =
        >>=-eq-ok (sign_checkpoints lib scripts assets env txs.checkpoints) _ f₃ in
      subst (λ b. IsSigned checkpoint b × (b.inputs ≡ inputs) × (b.outputs ≡ outputs))
        (ok-injective _ _ f₄)
        (
          record {
            txs = txs;
            raw = raw;
            built = or_fail-eq-ok _ _ txs e₁;
            encoded = or_fail-eq-ok _ _ raw e₂;
            signed = or_fail-eq-ok _ _ signed e₃;
            checkpoints_signed = e₄;
          },
          refl,
          refl,
        )

  spent :
      (n : ℕ) (tvs : List VtxoWithTapTree) (first : VtxoInput) (rest : List VtxoInput)
      → first.amount ≡ to_i64 n
      → n + sum_btc tvs < 2 ^ 63
      → taker_inputs env tvs ≡ ok rest
      → map (λ (x : VtxoInput). x.amount) (first ∷ rest)
        ≡ pos n ∷ map (λ (tv : VtxoWithTapTree). pos tv.vtxo.amount) tvs
  spent n tvs first rest e limit g =
      let head = e ∙ to_i64-small n (omega arith) in
      let tail = taker_inputs-amounts env tvs rest (omega arith) g in cc

  pub fulfill_inputs-amounts :
      (swap : Swap K R) (taker : Taker) (inputs : List VtxoInput)
      → swap.vtxo.amount + sum_btc taker.vtxos < 2 ^ 63
      → fulfill_inputs lib scripts assets env swap taker ≡ ok inputs
      → map (λ (x : VtxoInput). x.amount) inputs
        ≡ pos swap.vtxo.amount ∷ map (λ (tv : VtxoWithTapTree). pos tv.vtxo.amount) taker.vtxos
  unfolding fulfill_inputs
  fulfill_inputs-amounts swap taker inputs limit e =
      let (first, e₁, f₁) =
        >>=-eq-ok (swap_input env swap.fulfill swap.closures swap.tree swap.vtxo) _ e in
      let (rest, e₂, f₂) = >>=-eq-ok (taker_inputs env taker.vtxos) _ f₁ in
      ap (map (λ (x : VtxoInput). x.amount)) (sym (ok-injective _ _ f₂))
      ∙ spent swap.vtxo.amount taker.vtxos first rest
          (swap_input-amount env swap.fulfill swap.closures swap.tree swap.vtxo first e₁) limit e₂

  -- The extension output carries the offer's fulfill script and the asset packet of the inputs.
  pub record IsExtension (range_order : Transfers → Transfers) (o : Offer A K) (swap : Vtxo)
      (takers : List VtxoWithTapTree) (extension : TxOut) : Type 0 where
    pub script : Bytes
    pub packet : Bytes
    pub flows : Option (List (AssetGroup A))
    pub script_built : fulfill_script lib scripts o ≡ ok script
    pub packet_made : env.introspector_packet script ≡ some packet
    pub flows_built :
        build_fulfill_asset_packet lib assets range_order swap
          (map (λ (tv : VtxoWithTapTree). tv.vtxo) takers)
          o
        ≡ ok flows
    pub carried : env.extension_tx_out packet flows ≡ some extension

  pub fulfill_extension-IsExtension :
      (range_order : Transfers → Transfers) (o : Offer A K) (swap : Swap K R) (taker : Taker)
      (extension : TxOut)
      → fulfill_extension lib scripts assets env range_order o swap taker ≡ ok extension
      → IsExtension range_order o swap.vtxo taker.vtxos extension
  unfolding fulfill_extension
  fulfill_extension-IsExtension range_order o swap taker extension e =
      let (script, e₁, f₁) = >>=-eq-ok (wrapped (fulfill_script lib scripts o) _) _ e in
      let (packet, e₂, f₂) = >>=-eq-ok (or_fail (env.introspector_packet script) _) _ f₁ in
      let (flows, e₃, f₃) =
        >>=-eq-ok
          (wrapped
            (build_fulfill_asset_packet lib assets range_order swap.vtxo
              (map (λ (tv : VtxoWithTapTree). tv.vtxo) taker.vtxos) o)
            _)
          _ f₂ in
      record {
        script = script;
        packet = packet;
        flows = flows;
        script_built = wrapped-eq-ok _ _ script e₁;
        packet_made = or_fail-eq-ok _ _ packet e₂;
        flows_built = wrapped-eq-ok _ _ flows e₃;
        carried = or_fail-eq-ok _ _ extension f₃;
      }
