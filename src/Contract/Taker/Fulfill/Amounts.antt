-- ===== src/Contract/Taker/Fulfill/Amounts.antt =====
-- BTC in the outputs of the fulfillment.
use bancod.Prelude.{
  ℕ, ◌+◌, ◌-◌, ◌^◌, ◌≡◌, sym, ◌∙◌, ◌<◌, ◌≤◌, true, List, [], ◌∷◌, none, ltb, if◌then◌else◌, pos,
  to_i64, is_negative, IsU64, add_u64, ok, err, >>=-eq-ok, ok-injective, arith,
}
use bancod.Contract.ArkLib.{ArkLib}
use bancod.Contract.Offer.{Offer}
use bancod.Contract.Assets.{AssetLib, Transfers}
use bancod.Contract.Script.{ScriptLib}
use bancod.Contract.Taker.{TxOut, TakerEnv, insufficient_btc}
use bancod.Contract.Taker.Inputs.{total_btc}
use bancod.Contract.Taker.Inputs.Totals.{sum_btc, total_btc-sum_btc}
use bancod.Contract.Taker.Fulfill.{
  Swap, Taker, maker_btc_amount, btc_change, fulfill_outputs, fulfill_extension,
}

-- For amounts below 2^63, the change is what is left after the maker is paid, and there is a
-- change exactly where the taker's BTC covers the maker's.
pub btc_change_lem :
    (total maker_btc : ℕ)
    → total < 2 ^ 63
    → maker_btc < 2 ^ 63
    → btc_change total maker_btc
      ≡ (if ltb total maker_btc then err insufficient_btc else ok (total - maker_btc))
unfolding btc_change
btc_change_lem total maker_btc h k = ground arith

-- The guard on the change lets a BTC offer pass that the taker cannot pay, where the wanted amount
-- is a uint64 that exceeds the taker's BTC by more than 2^63: as an int64 it is negative, and the
-- change is more than the taker has.
pub btc_change_negative :
    {A K : Type 0} (o : Offer A K) (total : ℕ)
    → o.want_asset ≡ none
    → IsU64 o.want_amount
    → total + 2 ^ 63 < o.want_amount
    → (is_negative (to_i64 (maker_btc_amount o)) ≡ true)
      × (btc_change total (maker_btc_amount o) ≡ ok (total + (2 ^ 64 - o.want_amount)))
unfolding btc_change maker_btc_amount
btc_change_negative o total btc h k = ground arith

to_i64-small : (n : ℕ) → n < 2 ^ 63 → to_i64 n ≡ pos n
to_i64-small n h = ground arith

maker_btc-lt : {A K : Type 0} (o : Offer A K) → o.want_amount < 2 ^ 63 → maker_btc_amount o < 2 ^ 63
unfolding maker_btc_amount
maker_btc-lt o h = ground arith

btc_change_ok :
    (total maker_btc change : ℕ)
    → total < 2 ^ 63
    → maker_btc < 2 ^ 63
    → btc_change total maker_btc ≡ ok change
    → (maker_btc ≤ total) × (change ≡ total - maker_btc)
unfolding btc_change
btc_change_ok total maker_btc change h k e = ground arith

module _ {A K R X : Type 0} (lib : ArkLib A K) (scripts : ScriptLib K) (assets : AssetLib A)
    (env : TakerEnv A K R X) where
  pub fulfill_outputs-extended :
      (range_order : Transfers → Transfers) (o : Offer A K) (swap : Swap K R) (taker : Taker)
      (outputs : List TxOut)
      → o.want_amount < 2 ^ 63
      → swap.vtxo.amount + sum_btc taker.vtxos < 2 ^ 63
      → fulfill_outputs lib scripts assets env range_order o swap taker ≡ ok outputs
      → (extension : TxOut) × (fulfill_extension lib scripts assets env range_order o swap taker
          ≡ ok extension)
        × (maker_btc_amount o ≤ sum_btc taker.vtxos)
        × (outputs
            ≡ record { value = pos (maker_btc_amount o); pk_script = o.maker_pk_script }
              ∷ record {
                value = pos (swap.vtxo.amount + (sum_btc taker.vtxos - maker_btc_amount o));
                pk_script = taker.pk_script;
              }
              ∷ extension
              ∷ [])
  unfolding fulfill_outputs
  fulfill_outputs-extended range_order o swap taker outputs hw hs e =
      let total = total_btc-sum_btc env 0 taker.vtxos (omega arith) in
      let small = maker_btc-lt o hw in
      let (change, c, e₁) =
        >>=-eq-ok (btc_change (total_btc env 0 taker.vtxos) (maker_btc_amount o)) _ e in
      let (x, q, e₂) =
        >>=-eq-ok (fulfill_extension lib scripts assets env range_order o swap taker) _ e₁ in
      let (covered, left) = btc_change_ok _ _ change (omega arith) small c in
      let paid = to_i64-small (maker_btc_amount o) small in
      let kept =
        to_i64-small (swap.vtxo.amount + (sum_btc taker.vtxos - maker_btc_amount o))
          (omega arith) in
      let bits : add_u64 swap.vtxo.amount change
          ≡ swap.vtxo.amount + (sum_btc taker.vtxos - maker_btc_amount o) =
        omega arith in
      (x, q, omega arith, sym (ok-injective _ _ e₂) ∙ rw (bits, paid, kept))
