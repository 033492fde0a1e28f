-- ===== src/PriceFeed/Tests.antt =====
-- Two coins, the first without a price.
use bancod.Prelude.{ℕ, ◌≡◌, ◌⊎◌, refl, List, [], ◌∷◌, Option, some, Bytes, text, All, ok, err}
use bancod.PriceFeed.{no_price, HttpAnswer, fetch}
use bancod.PriceFeed.Priced.{IsPriceIn, fetch_cases}

abbrev coins : List (Bytes × List (Bytes × ℕ))
coins = (text "gold", []) ∷ (text "bitcoin", (text "usd", 50000) ∷ []) ∷ []

abbrev new_request : Bytes → Option Bytes
new_request url = some url

abbrev http_get : Bytes → Option HttpAnswer
http_get req = some (record { status = 200; body = some req })

abbrev parse : Bytes → Option (List (Bytes × List (Bytes × ℕ)))
parse body = some coins

fetched : fetch new_request http_get parse (text "feed") ≡ ok 50000
unfolding fetch bancod.PriceFeed.first_price
fetched = refl

fetch_cases_example :
    ((price : ℕ) × (fetch new_request http_get parse (text "feed") ≡ ok price)
      × IsPriceIn coins price)
    ⊎ ((fetch new_request http_get parse (text "feed") ≡ err no_price) × All (λ c. c.1 ≡ []) coins)
fetch_cases_example = fetch_cases new_request http_get parse (text "feed") refl refl refl
