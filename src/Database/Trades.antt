-- ===== src/Database/Trades.antt =====
-- internal/infrastructure/db/sqlite/trade_repo.go and internal/core/application/trade_listener.go:
-- the trades in the table trade, the newest first in the answers.
pub mod Order
pub mod Recorded
use bancod.Prelude.{
  ℕ, ◌+◌, ◌/◌, Bool, ◌&&◌, ◌||◌, List, [], ◌∷◌, ◌++◌, Option, none, some, ltb, ◌==◌, if◌then◌else◌,
  map, take, Bytes, ℤ, to_i64, to_u64,
}
use bancod.Banco.Plugin.{FulfillmentEvent}

-- ports.Trade, with its time in seconds.
pub record Trade : Type 0 where
  pub id : ℕ
  pub pair : Bytes
  pub deposit_asset : Bytes
  pub deposit_amount : ℕ
  pub want_asset : Bytes
  pub want_amount : ℕ
  pub offer_txid : Bytes
  pub fulfill_txid : Bytes
  pub created_at : ℕ

-- A row of the table trade.
pub record TradeRow : Type 0 where
  pub id : ℕ
  pub pair : Bytes
  pub deposit_asset : Bytes
  pub deposit_amount : ℤ
  pub want_asset : Bytes
  pub want_amount : ℤ
  pub offer_txid : Bytes
  pub fulfill_txid : Bytes
  pub created_at : ℕ

-- The table and the last id that AUTOINCREMENT gave.
pub record TradeTable : Type 0 where
  pub rows : List TradeRow
  pub last_id : ℕ

-- Add: the new row gets the next id.
pub add_trade : Trade → TradeTable → TradeTable
add_trade t table = record {
  rows =
      table.rows
      ++ record {
        id = table.last_id + 1;
        pair = t.pair;
        deposit_asset = t.deposit_asset;
        deposit_amount = to_i64 t.deposit_amount;
        want_asset = t.want_asset;
        want_amount = to_i64 t.want_amount;
        offer_txid = t.offer_txid;
        fulfill_txid = t.fulfill_txid;
        created_at = t.created_at;
      }
        ∷ [];
  last_id = table.last_id + 1;
}

-- ORDER BY created_at DESC, id DESC: whether a row comes before another.
pub is_before : TradeRow → TradeRow → Bool
is_before a b = ltb b.created_at a.created_at || (a.created_at == b.created_at && ltb b.id a.id)

pub insert_row : TradeRow → List TradeRow → List TradeRow
insert_row r [] = r ∷ []
insert_row r (x ∷ xs) = let rest = insert_row r xs in if is_before r x then r ∷ x ∷ xs else x ∷ rest

pub order_rows : List TradeRow → List TradeRow
order_rows [] = []
order_rows (r ∷ rows) = insert_row r (order_rows rows)

pub to_trade : TradeRow → Trade
to_trade row = record {
  id = row.id;
  pair = row.pair;
  deposit_asset = row.deposit_asset;
  deposit_amount = to_u64 row.deposit_amount;
  want_asset = row.want_asset;
  want_amount = to_u64 row.want_amount;
  offer_txid = row.offer_txid;
  fulfill_txid = row.fulfill_txid;
  created_at = row.created_at;
}

-- List, where a limit that is not positive is 0.
pub list_trades : ℕ → TradeTable → List Trade
list_trades limit table =
    let n = if limit == 0 then 100 else limit in map to_trade (take n (order_rows table.rows))

-- OnFulfill: the trade of an event, whose time is in nanoseconds; a failed insert is logged.
pub on_fulfill :
    (Trade → TradeTable → Option TradeTable) → FulfillmentEvent → TradeTable → TradeTable
on_fulfill repo_add evt table =
    elim (repo_add
      (record {
        id = 0;
        pair = evt.pair;
        deposit_asset = evt.deposit_asset;
        deposit_amount = evt.deposit_amount;
        want_asset = evt.want_asset;
        want_amount = evt.want_amount;
        offer_txid = evt.offer_txid;
        fulfill_txid = evt.fulfill_txid;
        created_at = evt.timestamp / 1000000000;
      })
      table) [ none ↦ table | some stored ↦ stored ]
