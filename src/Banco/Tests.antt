-- ===== src/Banco/Tests.antt =====
-- Pairs, prices and funded offers on concrete values. A price is a natural number here.
use bancod.Prelude.{
  ℕ, ◌*◌, ◌/◌, ◌^◌, ◌≡◌, ◌≢◌, ◌⊎◌, ◌↔◌, refl, false, [], ◌∷◌, ◌++◌, Option, none, some, ◌==◌, leb,
  if◌then◌else◌, Bytes, text, bytes_equal, pos, arith,
}
use bancod.Examples.{TestAsset, TestKey, gold_offer, silver, p2tr, alice}
use bancod.Contract.Assets.{AssetGroup}
use bancod.Banco.Pair.{Pair, split_pair}
use bancod.Banco.Pair.Split.{NoSlash, split_pair-eq-some_iff}
use bancod.Banco.Offer.{FundedOffer, Tx, Extension, Float64}
use bancod.Banco.Price.{CachedEntry, PriceCache, PriceError, find_entry, put_entry, trim_space, get}
use bancod.Banco.Price.Cache.{IsExpired, failed_price, find_entry-put_entry, get-get, get_cases}

abbrev silver_gold : Pair
silver_gold = record {
  pair = text "silver/gold";
  min_amount = 1;
  max_amount = 1000;
  base_decimals = 0;
  quote_decimals = 0;
  price_feed = text " feed ";
  invert_price = false;
}

silver-NoSlash : NoSlash (text "silver")
silver-NoSlash = (
  (λ e. absurd (omega arith)),
  (
    (λ e. absurd (omega arith)),
    (
      (λ e. absurd (omega arith)),
      (
        (λ e. absurd (omega arith)),
        ((λ e. absurd (omega arith)), ((λ e. absurd (omega arith)), tt)),
      ),
    ),
  ),
)

split_pair-eq-some_iff_example :
    (split_pair (text "silver/gold") ≡ some (text "silver", text "gold")) ↔ (
      (text "silver/gold" ≡ text "silver" ++ b'/' ∷ text "gold")
      × NoSlash (text "silver")
      × (text "silver" ≢ [])
      × (text "gold" ≢ []))
split_pair-eq-some_iff_example =
    split_pair-eq-some_iff (text "silver/gold") (text "silver") (text "gold")

abbrev funding : Tx
funding = record {
  txid = text "fund";
  outputs =
      record { value = pos 9; pk_script = [] }
      ∷ record { value = pos 330; pk_script = p2tr alice }
      ∷ [];
}

abbrev silver_group : AssetGroup TestAsset
silver_group = record {
  asset_id = some silver;
  inputs = [];
  outputs = record { vout = 1; amount = 40 } ∷ [];
}

abbrev extension : Extension TestAsset
extension = record { packet_by_type = λ t. none; asset_packet = silver_group ∷ [] }

-- 40 of silver at output 1.
abbrev funded : FundedOffer TestAsset TestKey
funded = record {
  offer = gold_offer;
  funding_txid = text "fund";
  deposit_asset = some silver;
  deposit_amount = 40;
}

-- Prices in natural numbers, with margins that are wide enough to be read.
abbrev numbers : Float64 ℕ
numbers = record {
  of_uint64 = λ n. n;
  pow10 = λ n. 10 ^ n;
  zero = 0;
  one = 1;
  lower_margin = 1;
  upper_margin = 2;
  mul = λ a b. a * b;
  div = λ a b. a / b;
  ge = λ a b. leb b a;
  is_zero = λ a. a == 0;
}

abbrev empty_cache : PriceCache ℕ
empty_cache = record { ttl = 100; entries = [] }

abbrev entry : CachedEntry ℕ
entry = record { price = 4; fetched_at = 9 }

find_entry-put_entry_example :
    find_entry (text "a") (put_entry (text "a") entry [])
    ≡ (if bytes_equal (text "a") (text "a") then some entry else find_entry (text "a") [])
find_entry-put_entry_example = find_entry-put_entry (text "a") (text "a") entry []

abbrev feed : Bytes → Option ℕ
feed url = some 4

-- A feed that fails.
abbrev no_feed : Bytes → Option ℕ
no_feed url = none

empty-IsExpired : IsExpired numbers empty_cache 9 (trim_space (text " feed "))
unfolding find_entry
empty-IsExpired e h = absurd cc

feed_key : trim_space (text "feed") ≡ trim_space (text " feed ")
unfolding trim_space bancod.Banco.Price.trim_left bancod.Banco.Price.is_space
feed_key = refl

get-get_example :
    get numbers no_feed 50 (text "feed") (get numbers feed 9 (text " feed ") empty_cache).1
    ≡ ((4, none), (get numbers feed 9 (text " feed ") empty_cache).1)
get-get_example =
    get-get numbers feed no_feed 9 50 (text " feed ") (text "feed") empty_cache 4 empty-IsExpired
      refl feed_key (omega arith)

get_cases_example :
    ((p : ℕ) × (feed (trim_space (text " feed ")) ≡ some p)
      × ((get numbers feed 9 (text " feed ") empty_cache).0 ≡ (p, none))
      × ((j : Bytes)
          → find_entry j (get numbers feed 9 (text " feed ") empty_cache).1.entries ≡ (
              if bytes_equal (trim_space (text " feed ")) j
              then some (record { price = p; fetched_at = 9 })
              else find_entry j [])))
    ⊎ ((feed (trim_space (text " feed ")) ≡ none)
        × (get numbers feed 9 (text " feed ") empty_cache
            ≡ (failed_price numbers (find_entry (trim_space (text " feed ")) []), empty_cache)))
get_cases_example = get_cases numbers feed 9 (text " feed ") empty_cache empty-IsExpired
