-- ===== src/Banco/Offer/Funding.antt =====
-- What an offer's deposit is taken to be.
use bancod.Prelude.{
  ℕ, ◌%◌, ◌^◌, ◌≡◌, false, List, Option, none, some, Bytes, bytes_equal, Member, to_u64, get_elem?,
  take, All,
}
use bancod.Contract.ArkLib.{ArkLib}
use bancod.Contract.Offer as TheOffer
use bancod.Contract.Assets.{AssetOutput, AssetGroup}
use bancod.Contract.Taker.{TxOut}
use bancod.Banco.Offer.{FundedOffer, Tx}

-- The output at the index is the first one with the script.
pub record IsFirst (script : Bytes) (outs : List TxOut) (index : ℕ) (out : TxOut) : Type 0 where
  pub at : get_elem? outs index ≡ some out
  pub script_same : out.pk_script ≡ script
  pub none_before : All (λ (x : TxOut). bytes_equal x.pk_script script ≡ false) (take index outs)

module _ {A K : Type 0} (lib : ArkLib A K) where
  -- An output with an amount of the asset.
  abbrev pub Paid : Option A → List AssetOutput → ℕ → FundedOffer A K → FundedOffer A K → Type 0
  Paid id outs index o o' =
      (a : A) × (x : AssetOutput) × (id ≡ some a)
      × Member x outs
      × (x.vout ≡ index % 2 ^ 16)
      × (o' ≡ record o { deposit_asset = some a; deposit_amount = x.amount })

  -- The same of a group of the packet.
  abbrev pub PaidBy : List (AssetGroup A) → ℕ → FundedOffer A K → FundedOffer A K → Type 0
  PaidBy gs index o o' = (g : AssetGroup A) × Member g gs × Paid g.asset_id g.outputs index o o'

  -- The offer before the asset packet is read.
  abbrev pub btc_funded : Tx → TheOffer.Offer A K → TxOut → FundedOffer A K
  btc_funded tx offer out = record {
    offer = offer;
    funding_txid = tx.txid;
    deposit_asset = none;
    deposit_amount = to_u64 out.value;
  }
