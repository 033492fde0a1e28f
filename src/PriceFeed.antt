-- ===== src/PriceFeed.antt =====
-- internal/infrastructure/pricefeed/coingecko.go: Fetch. `F` is the type of prices. HTTP is the
-- argument `http_get`, and `parse` gives the two levels of maps in the order in which Go's range
-- visits their entries.
mod Tests
pub mod Priced
use bancod.Prelude.{
  ℕ, not, List, [], ◌∷◌, Option, none, some, ◌==◌, Bytes, Result, ok, err, ◌>>=◌, ◌>>◌, guard,
  or_fail,
}

pub data FetchError : Type 0 where
  create_failed get_failed bad_status read_failed parse_failed no_price : FetchError

-- The answer: its status code, and its body, if it can be read.
pub record HttpAnswer : Type 0 where
  pub status : ℕ
  pub body : Option Bytes

module _ {F : Type 0} where
  -- `for _, price := range currencies { return price, nil }`
  pub first_of : List (Bytes × F) → Option F
  first_of [] = none
  first_of ((currency, price) ∷ rest) = some price

  -- The loop over the coins: one without a price leads on to the next.
  pub first_price : List (Bytes × List (Bytes × F)) → Option F
  unfolding first_of
  first_price [] = none
  first_price ((coin, currencies) ∷ rest) = elim (first_of currencies) [
    | none ↦ first_price rest
    | some price ↦ some price
  ]

  -- Fetch, for a URL of which a request can be made or not.
  pub fetch :
      (Bytes → Option Bytes)
      → (Bytes → Option HttpAnswer)
      → (Bytes → Option (List (Bytes × List (Bytes × F))))
      → Bytes
      → Result FetchError F
  fetch new_request http_get parse url = do
    req ← or_fail (new_request url) create_failed
    resp ← or_fail (http_get req) get_failed
    guard (resp.status == 200) bad_status
    body ← or_fail resp.body read_failed
    coins ← or_fail (parse body) parse_failed
    or_fail (first_price coins) no_price
