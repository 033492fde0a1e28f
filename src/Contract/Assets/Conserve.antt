-- ===== src/Contract/Assets/Conserve.antt =====
-- Conservation of assets in the fulfillment packet.
use bancod.Prelude.{◌≡◌, ◌≢◌, ◌≤◌, Option}
use bancod.Contract.ArkLib.{ArkLib}
use bancod.Contract.Offer.{Offer}
use bancod.Contract.Assets.Register.{sum_in, sum_out}
use bancod.Contract.Assets.{AssetGroup, AssetLib, AssetLaws}

module _ {A K : Type 0} (lib : ArkLib A K) (assets : AssetLib A) (laws : AssetLaws assets) where
  -- A group of the packet.
  abbrev pub IsBalanced : Offer A K → AssetGroup A → Type 0
  IsBalanced o g =
      (sum_in g.inputs ≤ sum_out g.outputs)
      × (g.asset_id ≢ o.want_asset → sum_in g.inputs ≡ sum_out g.outputs)
      × (o.want_amount ≤ sum_in g.inputs → sum_in g.inputs ≡ sum_out g.outputs)
