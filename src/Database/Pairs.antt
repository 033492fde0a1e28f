-- ===== src/Database/Pairs.antt =====
-- internal/infrastructure/db/sqlite/repo.go: the pairs in the table banco_pair. A table is the list
-- of its rows; `pair` is its primary key.
mod Tests
pub mod Table
use bancod.Prelude.{
  ℕ, zero, suc, ◌+◌, ◌≡◌, Bool, true, false, List, [], ◌∷◌, ◌++◌, Option, none, some, ◌==◌,
  if◌then◌else◌, map, Bytes, bytes_equal, ℤ, pos, negsuc, to_i64, to_u64, Result, ok, err,
}
use bancod.Banco.Pair.{Pair}

-- sqlc.BancoPair, and the parameters of InsertPair and UpdatePair. An int holds a decimals count
-- by its bits, as an int64 does.
pub record BancoPair : Type 0 where
  pub pair : Bytes
  pub min_amount : ℤ
  pub max_amount : ℤ
  pub base_decimals : ℤ
  pub quote_decimals : ℤ
  pub price_feed : Bytes
  pub invert_price : ℤ

-- The error of Add is the primary key's; that of Update is ports.ErrPairNotFound.
pub data PairsError : Type 0 where
  duplicate_pair pair_not_found : PairsError

unfoldable pub bool_to_int : Bool → ℤ
bool_to_int true = pos 1
bool_to_int false = pos 0

-- `n != 0`
unfoldable pub int_to_bool : ℤ → Bool
int_to_bool (pos n) = if n == 0 then false else true
int_to_bool (negsuc n) = true

-- The parameters that Add and Update pass.
unfoldable pub to_row : Pair → BancoPair
to_row p = record {
  pair = p.pair;
  min_amount = to_i64 p.min_amount;
  max_amount = to_i64 p.max_amount;
  base_decimals = to_i64 p.base_decimals;
  quote_decimals = to_i64 p.quote_decimals;
  price_feed = p.price_feed;
  invert_price = bool_to_int p.invert_price;
}

unfoldable pub to_domain_pair : BancoPair → Pair
to_domain_pair row = record {
  pair = row.pair;
  min_amount = to_u64 row.min_amount;
  max_amount = to_u64 row.max_amount;
  base_decimals = to_u64 row.base_decimals;
  quote_decimals = to_u64 row.quote_decimals;
  price_feed = row.price_feed;
  invert_price = int_to_bool row.invert_price;
}

unfoldable pub has_row : Bytes → List BancoPair → Bool
has_row name [] = false
has_row name (row ∷ rows) = if bytes_equal row.pair name then true else has_row name rows

-- INSERT INTO banco_pair, which fails where the primary key is there.
unfoldable pub insert_pair : BancoPair → List BancoPair → Result PairsError (List BancoPair)
insert_pair row rows = if has_row row.pair rows then err duplicate_pair else ok (rows ++ row ∷ [])

-- UPDATE banco_pair: the number of rows changed, and the table.
pub update_pair : BancoPair → List BancoPair → ℕ × List BancoPair
update_pair row [] = (0, [])
update_pair row (r ∷ rows) =
    let (n, rest) = update_pair row rows in
    if bytes_equal r.pair row.pair then (n + 1, row ∷ rest) else (n, r ∷ rest)

-- DELETE FROM banco_pair
unfoldable pub delete_pair : Bytes → List BancoPair → List BancoPair
delete_pair name [] = []
delete_pair name (r ∷ rows) =
    let rest = delete_pair name rows in if bytes_equal r.pair name then rest else r ∷ rest

unfoldable pub list : List BancoPair → List Pair
list rows = map to_domain_pair rows

unfoldable pub add : Pair → List BancoPair → Result PairsError (List BancoPair)
add p rows = insert_pair (to_row p) rows

pub update : Pair → List BancoPair → Result PairsError (List BancoPair)
update p rows =
    let (n, rows') = update_pair (to_row p) rows in if n == 0 then err pair_not_found else ok rows'

unfoldable pub remove : Bytes → List BancoPair → List BancoPair
remove name rows = delete_pair name rows
