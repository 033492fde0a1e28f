-- ===== src/Banco/Offer.antt =====
-- pkg/banco/offer.go: an offer with the output that funds it.
pub mod Funding
use bancod.Prelude.{
  ℕ, zero, suc, ◌+◌, ◌%◌, ◌^◌, ◌≡◌, Bool, true, false, not, ◌&&◌, ◌||◌, List, [], ◌∷◌, Option, none,
  some, ◌==◌, ltb, if◌then◌else◌, Bytes, bytes_equal, text, ℤ, pos, negsuc, to_u64, Result, ok, err,
  ◌>>=◌,
}
use bancod.Contract.ArkLib.{ArkLib}
use bancod.Contract.Offer as TheOffer
use bancod.Contract.Assets.{AssetOutput, AssetGroup}
use bancod.Contract.Script.{Packet, FindError, find_banco_offer}
use bancod.Contract.Taker.{TxOut}
use bancod.Banco.Pair.{Pair}

-- The embedded contract.Offer is the field `offer`.
pub record FundedOffer (A K : Type 0) : Type 0 where
  pub offer : TheOffer.Offer A K
  pub funding_txid : Bytes
  pub deposit_asset : Option A
  pub deposit_amount : ℕ

-- The parts of a transaction that are read: its TxID() and its outputs.
pub record Tx : Type 0 where
  pub txid : Bytes
  pub outputs : List TxOut

-- An ark extension: GetPacketByType, and GetAssetPacket, which is empty where there is none.
pub record Extension (A : Type 0) : Type 0 where
  pub packet_by_type : ℕ → Option Packet
  pub asset_packet : List (AssetGroup A)

-- float64, as the arithmetic that the program uses. `ge a b` is `a >= b`.
pub record Float64 (F : Type 0) : Type 0 where
  pub of_uint64 : ℕ → F
  pub pow10 : ℕ → F
  pub zero : F
  pub one : F
  pub lower_margin : F
  pub upper_margin : F
  pub mul : F → F → F
  pub div : F → F → F
  pub ge : F → F → Bool
  pub is_zero : F → Bool

-- The loop over tx.TxOut: the value and the index of the first output with the script, from
-- index i on. Without one both variables keep 0.
unfoldable pub find_output : Bytes → ℕ → List TxOut → ℤ × ℕ
find_output script i [] = (pos 0, 0)
find_output script i (out ∷ outs) =
    if bytes_equal out.pk_script script then (out.value, i) else find_output script (i + 1) outs

-- `swapOutputValue <= 0`
abbrev pub is_not_positive : ℤ → Bool
is_not_positive (pos n) = n == 0
is_not_positive (negsuc n) = true

module _ {A K : Type 0} (lib : ArkLib A K) where
  -- The inner loop over the outputs of a group: the first at the index ends it.
  unfoldable pub deposit_of_outputs :
      Option A → ℕ → List AssetOutput → FundedOffer A K → FundedOffer A K
  deposit_of_outputs id index [] o = o
  deposit_of_outputs id index (out ∷ outs) o =
      if out.vout == index % 2 ^ 16
      then (elim id [
        | none ↦ o
        | some a ↦ record o { deposit_asset = some a; deposit_amount = out.amount }
      ])
      else deposit_of_outputs id index outs o

  -- The outer loop, over the asset packet.
  unfoldable pub deposit_of_groups : ℕ → List (AssetGroup A) → FundedOffer A K → FundedOffer A K
  deposit_of_groups index [] o = o
  deposit_of_groups index (g ∷ gs) o =
      deposit_of_groups index gs (deposit_of_outputs g.asset_id index g.outputs o)

  -- From the decoded offer on. `none` is a nil result.
  unfoldable pub locate_deposit : Tx → Extension A → TheOffer.Offer A K → Option (FundedOffer A K)
  locate_deposit tx ext offer =
      let (value, index) = find_output offer.swap_pk_script 0 tx.outputs in
      if is_not_positive value
      then none
      else some (
          deposit_of_groups index ext.asset_packet (record {
            offer = offer;
            funding_txid = tx.txid;
            deposit_asset = none;
            deposit_amount = to_u64 value;
          }))

  unfoldable pub new_offer_from_extension :
      Tx → Extension A → Result FindError (Option (FundedOffer A K))
  new_offer_from_extension tx ext = do
    found ← find_banco_offer lib ext.packet_by_type
    elim found [ none ↦ ok none | some offer ↦ ok (locate_deposit tx ext offer) ]

  -- extension.NewExtensionFromTx is the last argument; its error gives a nil result.
  pub new_offer : Tx → Option (Extension A) → Result FindError (Option (FundedOffer A K))
  new_offer tx none = ok none
  new_offer tx (some ext) = new_offer_from_extension tx ext

  pub is_btc_deposit : FundedOffer A K → Bool
  is_btc_deposit o = elim o.deposit_asset [ none ↦ true | some a ↦ false ]

  unfoldable pub deposit_asset_str : FundedOffer A K → Bytes
  deposit_asset_str o = elim o.deposit_asset [ none ↦ text "BTC" | some a ↦ lib.asset_string a ]

  unfoldable pub want_asset_str : FundedOffer A K → Bytes
  want_asset_str o = elim o.offer.want_asset [ none ↦ [] | some a ↦ lib.asset_string a ]

  -- `none` is the result (0, false).
  unfoldable pub compute_price : {F : Type 0} → Float64 F → FundedOffer A K → Pair → Option F
  compute_price f o pair =
      if o.deposit_amount == 0 || o.offer.want_amount == 0
      then none
      else let base_amount = f.div (f.of_uint64 o.deposit_amount) (f.pow10 pair.base_decimals) in
        let quote_amount = f.div (f.of_uint64 o.offer.want_amount) (f.pow10 pair.quote_decimals) in
        some (f.div base_amount quote_amount)
