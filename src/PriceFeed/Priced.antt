-- ===== src/PriceFeed/Priced.antt =====
-- What Fetch returns.
use bancod.Prelude.{
  ◌≡◌, ◌⊎◌, inl, inr, refl, List, [], ◌∷◌, Option, none, some, Bytes, Member, All, ok, err,
}
use bancod.PriceFeed.{no_price, HttpAnswer, first_of, first_price, fetch}

module _ {F : Type 0} where
  -- A coin of the answer has the price in some currency.
  abbrev pub IsPriceIn : List (Bytes × List (Bytes × F)) → F → Type 0
  IsPriceIn coins price =
      (coin : Bytes) × (currency : Bytes) × (currencies : List (Bytes × F)) × Member
        (coin, currencies) coins
      × Member (currency, price) currencies

  first_of-cases :
      (cs : List (Bytes × F))
      → ((price : F) × (currency : Bytes) × (first_of cs ≡ some price)
          × Member (currency, price) cs)
        ⊎ ((first_of cs ≡ none) × (cs ≡ []))
  unfolding first_of
  first_of-cases [] = inr (refl, refl)
  first_of-cases ((currency, price) ∷ rest) = inl (price, currency, refl, inl refl)

  first_price-cases :
      (coins : List (Bytes × List (Bytes × F)))
      → ((price : F) × (first_price coins ≡ some price) × IsPriceIn coins price)
        ⊎ ((first_price coins ≡ none) × All (λ c. c.1 ≡ []) coins)
  unfolding first_price
  first_price-cases [] = inr (refl, tt)
  first_price-cases ((coin, cs) ∷ rest) = elim (first_of-cases cs) [
    | inl (price, currency, e, m) ↦
        inl (price, rw (e, first_price), (coin, currency, cs, inl refl, m))
    | inr (e, empty) ↦ elim (first_price-cases rest) [
      | inl (price, e', (coin', currency, cs', m, m')) ↦
          inl (price, rw (e, first_price) e', (coin', currency, cs', inr m, m'))
      | inr (e', all_empty) ↦ inr (rw (e, first_price) e', (empty, all_empty))
    ]
  ]

  -- Of an answer with status 200 that can be read and parsed, Fetch returns a price that a coin has
  -- in some currency; or it fails, exactly where no coin has a price, whatever the order of the
  -- entries.
  pub fetch_cases :
      (new_request : Bytes → Option Bytes) (http_get : Bytes → Option HttpAnswer)
      (parse : Bytes → Option (List (Bytes × List (Bytes × F)))) (url : Bytes) {req body : Bytes}
      {coins : List (Bytes × List (Bytes × F))}
      → new_request url ≡ some req
      → http_get req ≡ some (record { status = 200; body = some body })
      → parse body ≡ some coins
      → ((price : F) × (fetch new_request http_get parse url ≡ ok price) × IsPriceIn coins price)
        ⊎ ((fetch new_request http_get parse url ≡ err no_price) × All (λ c. c.1 ≡ []) coins)
  unfolding fetch
  fetch_cases new_request http_get parse url {req} {body} {coins} e₁ e₂ e₃ =
      elim (first_price-cases coins) [
        | inl (price, e, m) ↦ inl (price, rw (e₁, e₂, e₃, e) refl, m)
        | inr (e, empty) ↦ inr (rw (e₁, e₂, e₃, e) refl, empty)
      ]
