-- ===== src/Interface/Gateway/Tests.antt =====
-- Two trades, and routes.
use bancod.Prelude.{ℕ, ◌≡◌, refl, false, [], ◌∷◌, Option, none, some, Bytes, text, pos}
use bancod.Database.Trades.{TradeRow, TradeTable}
use bancod.Interface.Json.{Json}
use bancod.Interface.Gateway.{
  Request, get, post, delete, to_remove, wrong_method, redirected, no_route, bad_url, route,
  Backend, trades_limit,
}

abbrev trade : TradeRow
trade = record {
  id = 1;
  pair = text "silver/gold";
  deposit_asset = text "silver";
  deposit_amount = pos 40;
  want_asset = text "gold";
  want_amount = pos 200;
  offer_txid = text "fund";
  fulfill_txid = text "ark";
  created_at = 5;
}

abbrev table : TradeTable
table = record { rows = trade ∷ record trade { id = 2; created_at = 9 } ∷ []; last_id = 2 }

abbrev backend : Backend
backend = record {
  indexer = none;
  wallet = none;
  new_offchain = none;
  new_boarding = none;
  trades = some table;
  running = false;
  page_code = λ path. 200;
}

abbrev request : Request
request = record { method = get; path = text "/v1/trades"; limit = text "5000"; body = [] }

abbrev first_value : Bytes → Option Json
first_value s = none

routes :
    (route delete (text "/v1/pair/a%2fb") ≡ to_remove (text "a/b"))
    × (route delete (text "/v1/pair/a/b") ≡ no_route)
    × (route post (text "/v1/pairs") ≡ wrong_method)
    × (route get (text "/v1//pairs") ≡ redirected)
    × (route get (text "/v1/p%zz") ≡ bad_url)
unfolding route bancod.Interface.Gateway.unescape_all bancod.Prelude.Slashes.split_slash
    bancod.Interface.Url.path_unescape bancod.Interface.Gateway.route_clean
    bancod.Interface.Gateway.is_dirty bancod.Interface.Gateway.route_parts
    bancod.Interface.Gateway.route_v1 bancod.Interface.Gateway.on_remove
    bancod.Interface.Gateway.on_get
routes = (refl, refl, refl, refl, refl)

limits : (trades_limit (text "1000") ≡ 1000) × (trades_limit (text "1001") ≡ 0)
unfolding trades_limit bancod.Interface.Gateway.in_bounds bancod.Prelude.Numerals.atoi
    bancod.Prelude.Numerals.signed bancod.Prelude.Numerals.parse_number
    bancod.Prelude.Numerals.parse_digits bancod.Prelude.Numerals.in_range
limits = (refl, refl)
