-- ===== src/Banco/Plugin/Terms.antt =====
-- What the plugin reads of an offer: what it wants, and its deposit.
use bancod.Prelude.{
  ℕ, ◌≡◌, refl, sym, ◌∙◌, ap, inl, inr, List, [], ◌∷◌, Option, none, some, ◌==◌, ◌%◌, ◌^◌, Bytes,
  Bool-cases, if◌then◌else◌, to_u64,
}
use mathlib.Core.Option.{some-injective}
use bancod.Contract.ArkLib.{ArkLib}
use bancod.Contract.Offer as TheOffer
use bancod.Contract.Assets.{AssetOutput, AssetGroup}
use bancod.Banco.Pair.{Pair}
use bancod.Banco.Offer.{
  FundedOffer, Tx, Extension, Float64, deposit_of_outputs, deposit_of_groups, locate_deposit,
  find_output, is_not_positive, deposit_asset_str, want_asset_str, compute_price,
}
use bancod.Banco.Plugin.{World, PluginEnv, is_match, find_matching_pair, compare_prices}
use bancod.Banco.Plugin.Decoded.{IsListed}
use bancod.Banco.Plugin.Accepts.{IsAcceptable}

-- The deposit does not depend on the offer that it is for, but for the swap script.
module _ {A K : Type 0} (lib : ArkLib A K) where
  abbrev pub with_offer : FundedOffer A K → TheOffer.Offer A K → FundedOffer A K
  with_offer z o = record z { offer = o }

  deposit_of_outputs-with_offer :
      (id : Option A) (index : ℕ) (outs : List AssetOutput) (z : FundedOffer A K)
      (o : TheOffer.Offer A K)
      → deposit_of_outputs lib id index outs (with_offer z o)
        ≡ with_offer (deposit_of_outputs lib id index outs z) o
  unfolding deposit_of_outputs
  deposit_of_outputs-with_offer id index [] z o = refl
  deposit_of_outputs-with_offer none index (x ∷ outs) z o =
      elim (Bool-cases (x.vout == index % 2 ^ 16)) [
        | inl here ↦ rw here refl
        | inr away ↦ rw away (deposit_of_outputs-with_offer none index outs z o)
      ]
  deposit_of_outputs-with_offer (some a) index (x ∷ outs) z o =
      elim (Bool-cases (x.vout == index % 2 ^ 16)) [
        | inl here ↦ rw here refl
        | inr away ↦ rw away (deposit_of_outputs-with_offer (some a) index outs z o)
      ]

  deposit_of_groups-with_offer :
      (index : ℕ) (gs : List (AssetGroup A)) (z : FundedOffer A K) (o : TheOffer.Offer A K)
      → deposit_of_groups lib index gs (with_offer z o)
        ≡ with_offer (deposit_of_groups lib index gs z) o
  unfolding deposit_of_groups
  deposit_of_groups-with_offer index [] z o = refl
  deposit_of_groups-with_offer index (g ∷ gs) z o =
      ap (deposit_of_groups lib index gs)
        (deposit_of_outputs-with_offer g.asset_id index g.outputs z o)
      ∙ deposit_of_groups-with_offer index gs (deposit_of_outputs lib g.asset_id index g.outputs z)
          o

  -- locate_deposit, with the script that it looks for as an argument.
  abbrev located_at : Bytes → Tx → Extension A → TheOffer.Offer A K → Option (FundedOffer A K)
  located_at script tx ext o =
      let (value, index) = find_output script 0 tx.outputs in
      if is_not_positive value
      then none
      else some (
          deposit_of_groups lib index ext.asset_packet (record {
            offer = o;
            funding_txid = tx.txid;
            deposit_asset = none;
            deposit_amount = to_u64 value;
          }))

  located_at-with_offer :
      (script : Bytes) (tx : Tx) (ext : Extension A) (o o' : TheOffer.Offer A K)
      (z : FundedOffer A K)
      → located_at script tx ext o ≡ some z
      → located_at script tx ext o' ≡ some (with_offer z o')
  located_at-with_offer script tx ext o o' z e =
      elim (Bool-cases (is_not_positive (find_output script 0 tx.outputs).0)) [
        | inl bad ↦ let e' = rw bad at e in absurd cc
        | inr good ↦
            let whole = some-injective _ _ (rw good at e) in
            rw good (
              ap some (
                deposit_of_groups-with_offer _ ext.asset_packet _ o'
                ∙ ap (λ x. with_offer x o') whole))
      ]

  pub locate_deposit-with_offer :
      (tx : Tx) (ext : Extension A) (o o' : TheOffer.Offer A K) (z : FundedOffer A K)
      → locate_deposit lib tx ext o ≡ some z
      → o'.swap_pk_script ≡ o.swap_pk_script
      → locate_deposit lib tx ext o' ≡ some (with_offer z o')
  unfolding locate_deposit
  locate_deposit-with_offer tx ext o o' z e same =
      ap (λ s. located_at s tx ext o') same ∙ located_at-with_offer o.swap_pk_script tx ext o o' z e

  -- The funded offer holds the offer that it was located for.
  pub locate_deposit-offer :
      (tx : Tx) (ext : Extension A) (o : TheOffer.Offer A K) (z : FundedOffer A K)
      → locate_deposit lib tx ext o ≡ some z
      → z.offer ≡ o
  locate_deposit-offer tx ext o z e =
      let kept = sym e ∙ locate_deposit-with_offer tx ext o o z e refl in
      ap (λ (x : FundedOffer A K). x.offer) (some-injective _ _ kept)

  is_match-with_offer :
      (z : FundedOffer A K) (o : TheOffer.Offer A K) (p : Pair)
      → o.want_asset ≡ z.offer.want_asset
      → is_match lib (with_offer z o) p ≡ is_match lib z p
  unfolding is_match deposit_asset_str want_asset_str
  is_match-with_offer z o p same = rw same refl

  find_matching_pair-with_offer :
      (z : FundedOffer A K) (o : TheOffer.Offer A K) (ps : List Pair)
      → o.want_asset ≡ z.offer.want_asset
      → find_matching_pair lib ps (with_offer z o) ≡ find_matching_pair lib ps z
  unfolding find_matching_pair
  find_matching_pair-with_offer z o [] same = refl
  find_matching_pair-with_offer z o (p ∷ ps) same =
      rw (is_match-with_offer z o p same, find_matching_pair-with_offer z o ps same) refl

  -- What the plugin asks of an offer depends on what it wants and on its deposit alone.
  module _ {F : Type 0} (f : Float64 F) (env : PluginEnv F) (z : FundedOffer A K)
      (o : TheOffer.Offer A K) (p : Pair) where
    pub with_offer-IsListed :
        o.want_asset ≡ z.offer.want_asset
        → IsListed lib env (record { offer = z; pair = p })
        → IsListed lib env (record { offer = with_offer z o; pair = p })
    unfolding IsListed
    with_offer-IsListed same (ps, known, found) =
        (ps, known, find_matching_pair-with_offer z o ps same ∙ found)

    compare_prices-with_offer :
        (price : F)
        → o.want_amount ≡ z.offer.want_amount
        → compare_prices lib f env (record { offer = with_offer z o; pair = p }) price
          ≡ compare_prices lib f env (record { offer = z; pair = p }) price
    unfolding compare_prices compute_price
    compare_prices-with_offer price same = rw same refl

    pub with_offer-IsAcceptable :
        (w : World F)
        → o.want_amount ≡ z.offer.want_amount
        → o.want_asset ≡ z.offer.want_asset
        → IsAcceptable lib f env (record { offer = z; pair = p }) w
        → IsAcceptable lib f env (record { offer = with_offer z o; pair = p }) w
    with_offer-IsAcceptable w amount asset a = record {
      above_min = rw amount a.above_min;
      below_max = rw amount a.below_max;
      price_near = compare_prices-with_offer _ amount ∙ a.price_near;
      priced = a.priced;
      affordable = λ btc. rw amount (a.affordable (sym asset ∙ btc));
    }
