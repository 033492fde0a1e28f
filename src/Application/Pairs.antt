-- ===== src/Application/Pairs.antt =====
-- internal/core/application/service.go: the operations on pairs, over the repository.
mod Tests
pub mod Decimals
pub mod Valid
pub mod Stored
pub mod Missing
pub mod Spec
pub mod Refines
use bancod.Prelude.{
  ℕ, zero, suc, ◌+◌, ◌-◌, ◌*◌, ◌^◌, ◌≡◌, Bool, true, false, not, ◌&&◌, ◌||◌, List, [], ◌∷◌, Option,
  none, some, ltb, leb, ◌==◌, if◌then◌else◌, Bytes, text, bytes_equal, ℤ, pos, negsuc, Result, ok,
  err, ◌>>=◌, ◌>>◌, guard, or_fail,
}
use bancod.Prelude.Numerals.{atoi}
use bancod.Banco.Pair.{Pair, split_pair}
use bancod.Database.Pairs.{BancoPair, PairsError, add, update, remove, list}

-- An entry of an asset's metadata, of the indexer's answer.
pub record Metadata : Type 0 where
  pub key : Bytes
  pub value : Bytes

-- indexer.GetAsset: an error, a nil answer, or the metadata. The indexer itself may be nil.
pub data AssetAnswer : Type 0 where
  get_failed no_asset : AssetAnswer
  found : List Metadata → AssetAnswer

pub data DecimalsError : Type 0 where
  no_indexer asset_failed asset_not_found invalid_decimals : DecimalsError
  negative_decimals no_decimals : DecimalsError

pub data ServiceError : Type 0 where
  bad_format name_required bad_min_amount bad_max_amount : ServiceError
  min_above_max price_feed_required : ServiceError
  base_failed quote_failed : DecimalsError → ServiceError
  store_failed : PairsError → ServiceError

-- What the value of the decimals entry gives.
pub decimals_of : Option ℤ → Result DecimalsError ℕ
decimals_of none = err invalid_decimals
decimals_of (some (pos n)) = ok n
decimals_of (some (negsuc n)) = err negative_decimals

-- The loop over the metadata: the first entry with the key decides.
pub find_decimals : List Metadata → Result DecimalsError ℕ
find_decimals [] = err no_decimals
find_decimals (md ∷ mds) =
    if bytes_equal md.key (text "decimals") then decimals_of (atoi md.value) else find_decimals mds

pub answer_decimals : AssetAnswer → Result DecimalsError ℕ
answer_decimals get_failed = err asset_failed
answer_decimals no_asset = err asset_not_found
answer_decimals (found mds) = find_decimals mds

pub asset_decimals : Option (Bytes → AssetAnswer) → Bytes → Result DecimalsError ℕ
asset_decimals indexer asset_id =
    if bytes_equal asset_id (text "BTC")
    then ok 8
    else (elim indexer [ none ↦ err no_indexer | some get ↦ answer_decimals (get asset_id) ])

-- An error under the name that the caller gives it.
abbrev pub wrap_error {ℓ} :
    {E : Type 0} {B : Type ℓ} → (E → ServiceError) → Result E B → Result ServiceError B
wrap_error f (ok b) = ok b
wrap_error f (err e) = err (f e)

pub resolve_decimals : Option (Bytes → AssetAnswer) → Pair → Result ServiceError Pair
resolve_decimals indexer p = do
  sides ← or_fail (split_pair p.pair) bad_format
  base_dec ← wrap_error base_failed (asset_decimals indexer sides.0)
  quote_dec ← wrap_error quote_failed (asset_decimals indexer sides.1)
  ok (record p { base_decimals = base_dec; quote_decimals = quote_dec })

abbrev pub is_empty : Bytes → Bool
is_empty [] = true
is_empty (c ∷ s) = false

abbrev pub is_some : {B : Type 0} → Option B → Bool
is_some none = false
is_some (some b) = true

pub validate_pair : Pair → Result ServiceError (Unit {0})
validate_pair p = do
  guard (not (is_empty p.pair)) name_required
  guard (is_some (split_pair p.pair)) bad_format
  guard (not (p.min_amount == 0)) bad_min_amount
  guard (not (p.max_amount == 0)) bad_max_amount
  guard (leb p.min_amount p.max_amount) min_above_max
  guard (not (is_empty p.price_feed)) price_feed_required

pub add_pair :
    Option (Bytes → AssetAnswer) → Pair → List BancoPair → Result ServiceError (List BancoPair)
add_pair indexer p rows = do
  resolved ← resolve_decimals indexer p
  validate_pair resolved
  wrap_error store_failed (add resolved rows)

pub update_pair :
    Option (Bytes → AssetAnswer) → Pair → List BancoPair → Result ServiceError (List BancoPair)
update_pair indexer p rows = do
  resolved ← resolve_decimals indexer p
  validate_pair resolved
  wrap_error store_failed (update resolved rows)

unfoldable pub remove_pair : Bytes → List BancoPair → Result ServiceError (List BancoPair)
remove_pair name rows = do guard (not (is_empty name)) name_required; ok (remove name rows)

pub list_pairs : List BancoPair → List Pair
list_pairs rows = list rows

-- A request that changes the pairs, with the indexer that answers it.
pub data Command : Type 0 where
  add_command update_command : Option (Bytes → AssetAnswer) → Pair → Command
  remove_command : Bytes → Command

-- What the table is after a request; one that fails leaves it.
pub kept : List BancoPair → Result ServiceError (List BancoPair) → List BancoPair
kept rows (ok rows') = rows'
kept rows (err e) = rows

pub run_command : Command → List BancoPair → List BancoPair
run_command (add_command indexer p) rows = kept rows (add_pair indexer p rows)
run_command (update_command indexer p) rows = kept rows (update_pair indexer p rows)
run_command (remove_command name) rows = kept rows (remove_pair name rows)

pub run_commands : List Command → List BancoPair → List BancoPair
run_commands [] rows = rows
run_commands (c ∷ cs) rows = run_commands cs (run_command c rows)
