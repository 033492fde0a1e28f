-- ===== src/Banco/Price.antt =====
-- pkg/banco/price.go: the price cache and the price margin. Times are nanoseconds.
pub mod Cache
use bancod.Prelude.{
  ℕ, ◌+◌, ◌≡◌, Bool, true, false, ◌&&◌, ◌||◌, List, [], ◌∷◌, Option, none, some, ltb, leb, ◌==◌,
  if◌then◌else◌, Bytes, bytes_equal,
}
use mathlib.Core.List.{reverse}
use bancod.Banco.Offer.{Float64}

pub record CachedEntry (F : Type 0) : Type 0 where
  pub price : F
  pub fetched_at : ℕ

-- The map of a priceCache, as an association list, and its ttl.
pub record PriceCache (F : Type 0) : Type 0 where
  pub ttl : ℕ
  pub entries : List (Bytes × CachedEntry F)

-- The error of `get`: a stale price comes with an error, too.
pub data PriceError : Type 0 where
  stale_cache unavailable : PriceError

-- The ASCII white space of strings.TrimSpace.
unfoldable pub is_space : ℕ → Bool
is_space c = c == b' ' || (leb 9 c && leb c 13)

unfoldable pub trim_left : Bytes → Bytes
trim_left [] = []
trim_left (c ∷ s) = if is_space c then trim_left s else c ∷ s

unfoldable pub trim_space : Bytes → Bytes
trim_space s = reverse (trim_left (reverse (trim_left s)))

module _ {F : Type 0} where
  unfoldable pub find_entry : Bytes → List (Bytes × CachedEntry F) → Option (CachedEntry F)
  find_entry key [] = none
  find_entry key ((k, e) ∷ es) = if bytes_equal k key then some e else find_entry key es

  -- `c.entries[key] = e`
  unfoldable pub put_entry :
      Bytes → CachedEntry F → List (Bytes × CachedEntry F) → List (Bytes × CachedEntry F)
  put_entry key e [] = (key, e) ∷ []
  put_entry key e ((k, d) ∷ es) =
      if bytes_equal k key then (key, e) ∷ es else (k, d) ∷ put_entry key e es

  -- `now.Sub(cached.fetchedAt) < c.ttl`
  abbrev pub is_fresh : ℕ → ℕ → CachedEntry F → Bool
  is_fresh ttl now e = ltb now (e.fetched_at + ttl)

module _ {F : Type 0} (f : Float64 F) where
  -- A fetch that failed, with the entry that was found before it.
  unfoldable pub after_failure :
      PriceCache F → Option (CachedEntry F) → (F × Option PriceError) × PriceCache F
  after_failure c none = ((f.zero, some unavailable), c)
  after_failure c (some e) = ((e.price, some stale_cache), c)

  -- The part of `get` from the fetch on.
  unfoldable pub refresh :
      (Bytes → Option F)
      → ℕ
      → Bytes
      → Option (CachedEntry F)
      → PriceCache F
      → (F × Option PriceError) × PriceCache F
  refresh fetch now key cached c = elim (fetch key) [
    | none ↦ after_failure c cached
    | some p ↦ (
      (p, none),
      record c { entries = put_entry key (record { price = p; fetched_at = now }) c.entries },
    )
  ]

  -- The part of `get` behind the lookup: a fresh entry is served, and anything else fetched.
  unfoldable pub serve :
      (Bytes → Option F)
      → ℕ
      → Bytes
      → Option (CachedEntry F)
      → PriceCache F
      → (F × Option PriceError) × PriceCache F
  serve fetch now key none c = refresh fetch now key none c
  serve fetch now key (some e) c =
      if is_fresh c.ttl now e then ((e.price, none), c) else refresh fetch now key (some e) c

  -- `get`, with feed.Fetch and time.Now() as arguments. The price and the error, and the cache.
  unfoldable pub get :
      (Bytes → Option F) → ℕ → Bytes → PriceCache F → (F × Option PriceError) × PriceCache F
  get fetch now feed_url c =
      let key = trim_space feed_url in serve fetch now key (find_entry key c.entries) c

  unfoldable pub validate_price : F → F → Bool
  validate_price offer_price feed_price =
      f.ge offer_price (f.mul feed_price f.lower_margin)
      && f.ge (f.mul feed_price f.upper_margin) offer_price
