-- ===== src/Application/Recorded.antt =====
-- From the plugin's action of pkg/banco/plugin.go through the listener of
-- internal/core/application/trade_listener.go to the trades that are listed.
mod Tests
use bancod.Prelude.{
  ℕ, ◌+◌, ◌/◌, ◌≡◌, [], ◌∷◌, ◌++◌, true, some, Bytes, ok, IsU64, map, take, if◌then◌else◌, ◌==◌,
}
use bancod.Contract.ArkLib.{ArkLib}
use bancod.Contract.Assets.{AssetLib, Transfers}
use bancod.Contract.Script.{ScriptLib}
use bancod.Contract.Taker.{TakerEnv}
use bancod.Contract.Taker.Fulfill.{fulfill_offer}
use bancod.Banco.Offer.{Float64}
use bancod.Banco.Plugin.{MatchedOffer, World, PluginEnv, FulfillmentEvent, fulfill}
use bancod.Banco.Plugin.Events.{fulfilled_event, fulfill-events}
use bancod.Database.Trades.{TradeTable, add_trade, order_rows, to_trade, list_trades, on_fulfill}
use bancod.Database.Trades.Recorded.{IsUpTo, trade_of, on_fulfill-list_trades}

module _ {A K F R X : Type 0} (lib : ArkLib A K) (f : Float64 F) (env : PluginEnv F)
    (scripts : ScriptLib K) (assets : AssetLib A) (taker : TakerEnv A K R X)
    (range_order : Transfers → Transfers) where
  -- An offer that is fulfilled is recorded: the listener gets one event more, and where its insert
  -- succeeds, List gives the trade first, with the pair, the two assets and their amounts, the
  -- funding transaction and the one that FulfillOffer returned, and the trades of before behind
  -- it, up to the limit, or up to 100 where the limit is 0. That is for uint64 amounts, and where
  -- the ids and the times of the stored trades do not exceed the table's last id and the event's
  -- time.
  pub fulfill-list_trades :
      (m : MatchedOffer A K) (txid : Bytes) (w : World F) (limit : ℕ) (table : TradeTable)
      → env.has_listener ≡ true
      → fulfill_offer lib scripts assets taker range_order m.offer.offer ≡ ok txid
      → IsU64 m.offer.deposit_amount
      → IsU64 m.offer.offer.want_amount
      → IsUpTo (env.fulfilled_at / 1000000000) table
      → (evt : FulfillmentEvent) × ((fulfill lib f env scripts assets taker range_order m w).events
          ≡ w.events ++ evt ∷ [])
        × (list_trades limit (on_fulfill (λ t rows. some (add_trade t rows)) evt table)
            ≡ take (if limit == 0 then 100 else limit) (
                trade_of
                  (fulfilled_event lib f env scripts assets taker range_order m txid)
                  (table.last_id + 1)
                ∷ map to_trade (order_rows table.rows)))
  fulfill-list_trades m txid w limit table there e dep want old = (
    fulfilled_event lib f env scripts assets taker range_order m txid,
    fulfill-events lib f env scripts assets taker range_order m txid w there e,
    on_fulfill-list_trades _ limit table dep want old,
  )
