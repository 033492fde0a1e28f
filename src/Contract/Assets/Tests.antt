-- ===== src/Contract/Assets/Tests.antt =====
-- The asset packet of a concrete fulfillment.
use bancod.Prelude.{List, [], ◌∷◌, none, some, ok, err}
use bancod.Examples.{TestAsset, lib, assets, gold_offer, swap_vtxo, taker_vtxo}
use bancod.Contract.Assets.{AssetGroup, Transfers, build_fulfill_asset_packet}

-- The packet: 40 of silver go to the taker, 200 of 300 of gold to the maker.
abbrev gold_packet : List (AssetGroup TestAsset)
gold_packet =
    elim (build_fulfill_asset_packet lib assets (λ ts. ts) swap_vtxo (taker_vtxo ∷ []) gold_offer) [
      | ok p ↦ (elim p [ none ↦ [] | some gs ↦ gs ])
      | err e ↦ []
    ]
