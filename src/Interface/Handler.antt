-- ===== src/Interface/Handler.antt =====
-- internal/interface/grpc/handler.go: requests to the service, and errors as status codes.
pub mod Codes
use bancod.Prelude.{
  ℕ, ◌≡◌, Bool, true, false, List, [], ◌∷◌, Option, none, some, map, Bytes, ℤ, pos_part, Result, ok,
  err,
}
use bancod.Banco.Pair.{Pair}
use bancod.Database.Pairs.{BancoPair, PairsError, duplicate_pair, pair_not_found}
use bancod.Application.Pairs.{
  AssetAnswer, ServiceError, store_failed, add_pair, update_pair, remove_pair, list_pairs,
}
use bancod.Database.Trades.{Trade, TradeTable}
use bancod.Application.Service.{
  WalletBalance, WalletError, Balance, Address, get_balance, get_address, service_trades,
}

-- The status codes that the handler returns, or the gateway names.
pub data Code : Type 0 where
  invalid_argument not_found internal already_exists unimplemented : Code

-- The message PairInfo; a request may have none.
pub record PairInfo : Type 0 where
  pub pair : Bytes
  pub min_amount : ℕ
  pub max_amount : ℕ
  pub price_feed : Bytes
  pub invert_price : Bool

pub record BalanceResponse : Type 0 where
  pub onchain_confirmed : ℕ
  pub onchain_unconfirmed : ℕ
  pub offchain_settled : ℕ

pub proto_to_domain : PairInfo → Pair
proto_to_domain p = record {
  pair = p.pair;
  min_amount = p.min_amount;
  max_amount = p.max_amount;
  base_decimals = 0;
  quote_decimals = 0;
  price_feed = p.price_feed;
  invert_price = p.invert_price;
}

pub domain_to_proto : Pair → PairInfo
domain_to_proto p = record {
  pair = p.pair;
  min_amount = p.min_amount;
  max_amount = p.max_amount;
  price_feed = p.price_feed;
  invert_price = p.invert_price;
}

-- An error of the service under one code.
unfoldable pub with_code : {E B : Type 0} → (E → Code) → Result E B → Result Code B
with_code f (ok b) = ok b
with_code f (err e) = err (f e)

-- `errors.Is(err, ports.ErrPairNotFound)`
pub update_code : ServiceError → Code
update_code (store_failed pair_not_found) = not_found
update_code e = invalid_argument

pub handle_add_pair :
    Option (Bytes → AssetAnswer) → Option PairInfo → List BancoPair → Result Code (List BancoPair)
handle_add_pair indexer none rows = err invalid_argument
handle_add_pair indexer (some info) rows =
    with_code (λ e. invalid_argument) (add_pair indexer (proto_to_domain info) rows)

pub handle_update_pair :
    Option (Bytes → AssetAnswer) → Option PairInfo → List BancoPair → Result Code (List BancoPair)
handle_update_pair indexer none rows = err invalid_argument
handle_update_pair indexer (some info) rows =
    with_code update_code (update_pair indexer (proto_to_domain info) rows)

unfoldable pub handle_remove_pair : Bytes → List BancoPair → Result Code (List BancoPair)
handle_remove_pair name rows = with_code (λ e. invalid_argument) (remove_pair name rows)

pub handle_list_pairs : List BancoPair → List PairInfo
handle_list_pairs rows = map domain_to_proto (list_pairs rows)

pub handle_get_balance : Option WalletBalance → Result Code BalanceResponse
handle_get_balance answer = elim (get_balance answer) [
  | err e ↦ err internal
  | ok bal ↦ ok (record {
    onchain_confirmed = bal.onchain_spendable;
    onchain_unconfirmed = bal.onchain_locked;
    offchain_settled = bal.offchain_total;
  })
]

-- GetAddress; the two arguments are the client's answers.
pub handle_get_address : Option Bytes → Option Bytes → Result Code Address
handle_get_address new_offchain new_boarding =
    with_code (λ e. internal) (get_address new_offchain new_boarding)

-- The message TradeInfo, with its time in seconds.
pub record TradeInfo : Type 0 where
  pub id : ℕ
  pub pair : Bytes
  pub deposit_asset : Bytes
  pub deposit_amount : ℕ
  pub want_asset : Bytes
  pub want_amount : ℕ
  pub offer_txid : Bytes
  pub fulfill_txid : Bytes
  pub created_at : ℕ

pub to_trade_info : Trade → TradeInfo
to_trade_info t = record {
  id = t.id;
  pair = t.pair;
  deposit_asset = t.deposit_asset;
  deposit_amount = t.deposit_amount;
  want_asset = t.want_asset;
  want_amount = t.want_amount;
  offer_txid = t.offer_txid;
  fulfill_txid = t.fulfill_txid;
  created_at = t.created_at;
}

-- A limit that is not positive is the repository's default, as 0 is.
unfoldable pub handle_list_trades : ℤ → Option TradeTable → List TradeInfo
handle_list_trades limit repo = map to_trade_info (service_trades (pos_part limit) repo)
