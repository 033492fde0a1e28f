-- ===== src/Application/Service.antt =====
-- internal/core/application/service.go: the wallet's operations and the list of trades.
use bancod.Prelude.{
  ℕ, List, [], ◌∷◌, Option, none, some, Bytes, Result, ok, ◌>>=◌, or_fail, add_u64,
}
use bancod.Database.Trades.{Trade, TradeTable, list_trades}

-- The parts of the ark client's balance that are read.
pub record WalletBalance : Type 0 where
  pub spendable_amount : ℕ
  pub locked_amounts : List ℕ
  pub offchain_total : ℕ

pub record Balance : Type 0 where
  pub onchain_spendable : ℕ
  pub onchain_locked : ℕ
  pub offchain_total : ℕ

pub record Address : Type 0 where
  pub offchain_address : Bytes
  pub boarding_address : Bytes

pub data WalletError : Type 0 where
  balance_failed offchain_failed boarding_failed : WalletError

-- `lockedAmount += locked.Amount`
pub sum_locked : ℕ → List ℕ → ℕ
sum_locked acc [] = acc
sum_locked acc (n ∷ ns) = sum_locked (add_u64 acc n) ns

pub get_balance : Option WalletBalance → Result WalletError Balance
get_balance answer = do
  bal ← or_fail answer balance_failed
  ok (record {
    onchain_spendable = bal.spendable_amount;
    onchain_locked = sum_locked 0 bal.locked_amounts;
    offchain_total = bal.offchain_total;
  })

pub get_address : Option Bytes → Option Bytes → Result WalletError Address
get_address new_offchain new_boarding = do
  offchain ← or_fail new_offchain offchain_failed
  boarding ← or_fail new_boarding boarding_failed
  ok (record { offchain_address = offchain; boarding_address = boarding })

-- ListTrades; a service without a repository has no trades.
unfoldable pub service_trades : ℕ → Option TradeTable → List Trade
service_trades limit none = []
service_trades limit (some table) = list_trades limit table
