-- ===== src/Database/Pairs/Tests.antt =====
-- A table of one pair.
use bancod.Prelude.{◌≡◌, refl, true, List, [], ◌∷◌, text, ok, arith}
use bancod.Banco.Pair.{Pair}
use bancod.Database.Pairs.{BancoPair, has_row, to_row, list, add, update, remove}
use bancod.Database.Pairs.Table.{IsWide, IsKeyed, list-remove, without_name, operations-IsKeyed}

abbrev btc_gold : Pair
btc_gold = record {
  pair = text "BTC/gold";
  min_amount = 1;
  max_amount = 18446744073709551615;
  base_decimals = 8;
  quote_decimals = 2;
  price_feed = text "feed";
  invert_price = true;
}

abbrev silver_gold : Pair
silver_gold = record btc_gold { pair = text "silver/gold" }

btc_gold-IsWide : IsWide btc_gold
btc_gold-IsWide = record {
  min_amount = omega arith;
  max_amount = omega arith;
  base_decimals = omega arith;
  quote_decimals = omega arith;
}

silver_gold-IsWide : IsWide silver_gold
silver_gold-IsWide = record {
  min_amount = omega arith;
  max_amount = omega arith;
  base_decimals = omega arith;
  quote_decimals = omega arith;
}

abbrev one_row : List BancoPair
one_row = to_row btc_gold ∷ []

list-remove_example :
    list (remove (text "BTC/gold") one_row) ≡ without_name (text "BTC/gold") (list one_row)
list-remove_example = list-remove (text "BTC/gold") one_row

one_row-IsKeyed : IsKeyed one_row
unfolding IsKeyed has_row
one_row-IsKeyed = (refl, tt)

operations-IsKeyed_example :
    ((rows' : List BancoPair) → add silver_gold one_row ≡ ok rows' → IsKeyed rows')
    × ((rows' : List BancoPair) → update silver_gold one_row ≡ ok rows' → IsKeyed rows')
    × IsKeyed (remove (text "BTC/gold") one_row)
operations-IsKeyed_example =
    operations-IsKeyed silver_gold (text "BTC/gold") one_row one_row-IsKeyed
