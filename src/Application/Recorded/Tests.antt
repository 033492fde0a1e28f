-- ===== src/Application/Recorded/Tests.antt =====
-- Silver for gold, fulfilled, in a table with one trade.
use bancod.Prelude.{ℕ, ◌≡◌, [], ◌∷◌, ◌++◌, some, text, pos, refl, map, take, arith}
use bancod.Examples.{lib, scripts, assets}
use bancod.Contract.Taker.Fulfill.Tests.{wallet_env, fulfilled}
use bancod.Banco.Plugin.{World, PluginEnv, FulfillmentEvent, fulfill}
use bancod.Banco.Plugin.Events.{fulfilled_event}
use bancod.Banco.Plugin.Tests.{numbers, plugin_env, world, intent}
use bancod.Database.Trades.{TradeTable, add_trade, order_rows, to_trade, list_trades, on_fulfill}
use bancod.Database.Trades.Recorded.{trade_of}
use bancod.Application.Recorded.{fulfill-list_trades}

-- The event comes in the second 7.
abbrev later_env : PluginEnv ℕ
later_env = record plugin_env { fulfilled_at = 7000000000 }

abbrev one_trade : TradeTable
one_trade = record {
  rows =
      record {
        id = 4;
        pair = text "silver/gold";
        deposit_asset = text "silver";
        deposit_amount = pos 10;
        want_asset = text "gold";
        want_amount = pos 5;
        offer_txid = text "o";
        fulfill_txid = text "f";
        created_at = 7;
      }
      ∷ [];
  last_id = 4;
}

-- The plugin's world behind the fulfillment.
abbrev left : World ℕ
left = fulfill lib numbers later_env scripts assets wallet_env (λ ts. ts) intent world

fulfill-list_trades_example :
    (evt : FulfillmentEvent) × (left.events ≡ world.events ++ evt ∷ [])
    × (list_trades 0 (on_fulfill (λ t rows. some (add_trade t rows)) evt one_trade)
        ≡ take 100 (
            trade_of
              (fulfilled_event lib numbers later_env scripts assets wallet_env
                (λ ts. ts)
                intent
                (text "ark"))
              5
            ∷ map to_trade (order_rows one_trade.rows)))
fulfill-list_trades_example =
    fulfill-list_trades lib numbers later_env scripts assets wallet_env (λ ts. ts) intent
      (text "ark") world 0 one_trade refl fulfilled (omega arith) (omega arith)
      ((omega arith, omega arith), tt)
