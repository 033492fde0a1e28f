-- ===== src/Database/Trades/Recorded.antt =====
-- What the listener leaves in the table, as List gives it.
use bancod.Prelude.{
  ℕ, zero, suc, ◌+◌, ◌/◌, ◌≡◌, refl, ◌∙◌, ap, ◌≤◌, List, [], ◌∷◌, ◌++◌, false, ◌==◌, if◌then◌else◌,
  take, map, All, some, IsU64, to_u64-to_i64, arith,
}
use bancod.Banco.Plugin.{FulfillmentEvent}
use bancod.Database.Trades.{
  Trade, TradeRow, TradeTable, add_trade, is_before, insert_row, order_rows, to_trade, list_trades,
  on_fulfill,
}

-- The rows are numbered up to the last id, and none is newer than a time in seconds.
abbrev pub IsUpTo : ℕ → TradeTable → Type 0
IsUpTo time table =
    All (λ (r : TradeRow). (r.id ≤ table.last_id) × (r.created_at ≤ time)) table.rows

-- The trade of an event, with an id.
abbrev pub trade_of : FulfillmentEvent → ℕ → Trade
trade_of evt id = record {
  id = id;
  pair = evt.pair;
  deposit_asset = evt.deposit_asset;
  deposit_amount = evt.deposit_amount;
  want_asset = evt.want_asset;
  want_amount = evt.want_amount;
  offer_txid = evt.offer_txid;
  fulfill_txid = evt.fulfill_txid;
  created_at = evt.timestamp / 1000000000;
}

insert_row-behind :
    (x r : TradeRow) (rows : List TradeRow)
    → is_before x r ≡ false
    → insert_row x (r ∷ rows) ≡ r ∷ insert_row x rows
unfolding insert_row
insert_row-behind x r rows h = rw h refl

order_rows-newest :
    (r : TradeRow) (rows : List TradeRow)
    → All (λ (x : TradeRow). is_before x r ≡ false) rows
    → order_rows (rows ++ r ∷ []) ≡ r ∷ order_rows rows
unfolding order_rows insert_row
order_rows-newest r [] h = refl
order_rows-newest r (x ∷ rows) (g, h) =
    ap (insert_row x) (order_rows-newest r rows h) ∙ insert_row-behind x r (order_rows rows) g

older :
    (r : TradeRow) (last : ℕ) (rows : List TradeRow)
    → r.id ≡ last + 1
    → All (λ (x : TradeRow). (x.id ≤ last) × (x.created_at ≤ r.created_at)) rows
    → All (λ (x : TradeRow). is_before x r ≡ false) rows
unfolding is_before
older r last [] e h = tt
older r last (x ∷ rows) e ((g, k), h) = (ground arith, older r last rows e h)

map-take : {B C : Type 0} (f : B → C) (n : ℕ) (xs : List B) → map f (take n xs) ≡ take n (map f xs)
map-take f zero xs = refl
map-take f (suc n) [] = refl
map-take f (suc n) (x ∷ xs) = ap (λ ys. f x ∷ ys) (map-take f n xs)

-- Behind an event whose insert succeeds, its trade is listed first, and those of before behind it.
pub on_fulfill-list_trades :
    (evt : FulfillmentEvent) (limit : ℕ) (table : TradeTable)
    → IsU64 evt.deposit_amount
    → IsU64 evt.want_amount
    → IsUpTo (evt.timestamp / 1000000000) table
    → list_trades limit (on_fulfill (λ t rows. some (add_trade t rows)) evt table)
      ≡ take
          (if limit == 0 then 100 else limit)
          (trade_of evt (table.last_id + 1) ∷ map to_trade (order_rows table.rows))
unfolding list_trades on_fulfill add_trade to_trade
on_fulfill-list_trades evt limit table dep want old =
    let n = if limit == 0 then 100 else limit in
    ap (λ rows. map to_trade (take n rows))
      (order_rows-newest _ table.rows (older _ table.last_id table.rows refl old))
    ∙ map-take to_trade n _
    ∙ ap (λ t. take n (t ∷ map to_trade (order_rows table.rows)))
        (rw (to_u64-to_i64 evt.deposit_amount dep, to_u64-to_i64 evt.want_amount want) refl)
