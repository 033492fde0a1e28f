-- ===== src/Banco/Plugin/Events.antt =====
-- The event of a fulfillment.
use bancod.Prelude.{◌≡◌, refl, [], ◌∷◌, ◌++◌, true, Bytes, ok}
use bancod.Contract.ArkLib.{ArkLib}
use bancod.Contract.Assets.{AssetLib, Transfers}
use bancod.Contract.Script.{ScriptLib}
use bancod.Contract.Taker.{TakerEnv}
use bancod.Contract.Taker.Fulfill.{fulfill_offer}
use bancod.Banco.Offer.{Float64, deposit_asset_str, want_asset_str}
use bancod.Banco.Plugin.{MatchedOffer, World, PluginEnv, FulfillmentEvent, event_of, fulfill}

module _ {A K F R X : Type 0} (lib : ArkLib A K) (f : Float64 F) (env : PluginEnv F)
    (scripts : ScriptLib K) (assets : AssetLib A) (taker : TakerEnv A K R X)
    (range_order : Transfers → Transfers) where
  -- The event of a matched offer and of the transaction that fulfilled it.
  abbrev pub fulfilled_event : MatchedOffer A K → Bytes → FulfillmentEvent
  fulfilled_event m txid = record {
    pair = m.pair.pair;
    deposit_asset = deposit_asset_str lib m.offer;
    deposit_amount = m.offer.deposit_amount;
    want_asset = want_asset_str lib m.offer;
    want_amount = m.offer.offer.want_amount;
    offer_txid = m.offer.funding_txid;
    fulfill_txid = txid;
    timestamp = env.fulfilled_at;
  }

  -- The listener gets one event of a fulfillment, behind those of before.
  pub fulfill-events :
      (m : MatchedOffer A K) (txid : Bytes) (w : World F)
      → env.has_listener ≡ true
      → fulfill_offer lib scripts assets taker range_order m.offer.offer ≡ ok txid
      → (fulfill lib f env scripts assets taker range_order m w).events
        ≡ w.events ++ fulfilled_event m txid ∷ []
  unfolding fulfill event_of
  fulfill-events m txid w there e = rw (fulfill, e, there, event_of) refl
