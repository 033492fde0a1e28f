-- ===== src/Banco/Price/Cache.antt =====
-- The price cache against what it promises: fresh prices without a fetch, stale ones with an error.
use bancod.Prelude.{
  ℕ, ◌+◌, ◌≡◌, ◌<◌, refl, sym, ◌∙◌, ap, subst, ◌⊎◌, inl, inr, true, false, List, [], ◌∷◌, Option,
  none, some, if◌then◌else◌, Bytes, bytes_equal, bytes_equal_refl, bytes_equal→eq, Bool-cases,
  Option-cases, arith,
}
use bancod.Banco.Offer.{Float64}
use bancod.Banco.Price.{
  CachedEntry, PriceCache, PriceError, stale_cache, unavailable, trim_space, find_entry, put_entry,
  is_fresh, get, serve, refresh, after_failure,
}

module _ {F : Type 0} where
  pub find_entry-put_entry :
      (key j : Bytes) (e : CachedEntry F) (es : List (Bytes × CachedEntry F))
      → find_entry j (put_entry key e es) ≡ (if bytes_equal key j then some e else find_entry j es)
  unfolding find_entry put_entry
  find_entry-put_entry key j e [] = refl
  find_entry-put_entry key j e ((k, d) ∷ es) = elim (Bool-cases (bytes_equal k key)) [
    | inl same ↦ rw (same, bytes_equal→eq k key same) (ground arith)
    | inr other ↦ elim (Bool-cases (bytes_equal k j)) [
      | inl here ↦ rw (other, here, apart k key j other here)
      | inr there ↦ rw (other, there) (find_entry-put_entry key j e es)
    ]
  ]
    where
      apart :
          (k key j : Bytes)
          → bytes_equal k key ≡ false
          → bytes_equal k j ≡ true
          → bytes_equal key j ≡ false
      apart k key j other here = elim (Bool-cases (bytes_equal key j)) [
        | inl h ↦
            let same = bytes_equal→eq k j here ∙ sym (bytes_equal→eq key j h) in
            let yes' = subst (λ t. bytes_equal k t ≡ true) same (bytes_equal_refl k) in cc
        | inr h ↦ h
      ]

module _ {F : Type 0} (f : Float64 F) where
  -- No entry of the cache is fresh for the key.
  abbrev pub IsExpired : PriceCache F → ℕ → Bytes → Type 0
  IsExpired c now key =
      (e : CachedEntry F) → find_entry key c.entries ≡ some e → is_fresh c.ttl now e ≡ false

  serve-expired :
      (fetch : Bytes → Option F) (now : ℕ) (key : Bytes) (cached : Option (CachedEntry F))
      (c : PriceCache F)
      → ((e : CachedEntry F) → cached ≡ some e → is_fresh c.ttl now e ≡ false)
      → serve f fetch now key cached c ≡ refresh f fetch now key cached c
  unfolding serve
  serve-expired fetch now key none c x = refl
  serve-expired fetch now key (some e) c x = rw (x e refl)

  -- The answer of `get` where the fetch succeeds.
  get-fetched :
      (fetch : Bytes → Option F) (now : ℕ) (url : Bytes) (c : PriceCache F) (p : F)
      → IsExpired c now (trim_space url)
      → fetch (trim_space url) ≡ some p
      → get f fetch now url c ≡ (
        (p, none),
        record c {
          entries = put_entry (trim_space url) (record { price = p; fetched_at = now }) c.entries;
        },
      )
  unfolding get refresh
  get-fetched fetch now url c p x fetched =
      serve-expired fetch now (trim_space url) _ c x ∙ rw (fetched, refresh)

  -- A price that is fetched at a time, since no fresh entry was there, is the price of every call
  -- with the same trimmed URL before the ttl is over, without an error, whatever a fetch would
  -- then give, and the cache stays as it is.
  pub get-get :
      (fetch fetch' : Bytes → Option F) (now now' : ℕ) (url url' : Bytes) (c : PriceCache F) (p : F)
      → IsExpired c now (trim_space url)
      → fetch (trim_space url) ≡ some p
      → trim_space url' ≡ trim_space url
      → now' < now + c.ttl
      → get f fetch' now' url' (get f fetch now url c).1 ≡ ((p, none), (get f fetch now url c).1)
  get-get fetch fetch' now now' url url' c p x fetched same soon =
      rw (get-fetched fetch now url c p x fetched) (served fetch' now' same soon)
    where
      key : Bytes
      key = trim_space url

      e : CachedEntry F
      e = record { price = p; fetched_at = now }

      served :
          (fetch' : Bytes → Option F) (now' : ℕ)
          → trim_space url' ≡ key
          → now' < now + c.ttl
          → get f fetch' now' url' (record c { entries = put_entry key e c.entries })
            ≡ ((p, none), record c { entries = put_entry key e c.entries })
      served fetch' now' same soon =
          let fresh : is_fresh c.ttl now' e ≡ true = ground arith in
          let hit : find_entry (trim_space url') (put_entry key e c.entries) ≡ some e =
            rw same (find_entry-put_entry key key e c.entries ∙ rw (bytes_equal_refl key)) in
          unfold get serve in rw (hit, fresh)

  -- The price and the error where the fetch fails.
  abbrev pub failed_price : Option (CachedEntry F) → F × Option PriceError
  failed_price none = (f.zero, some unavailable)
  failed_price (some e) = (e.price, some stale_cache)

  refresh_cases :
      (fetch : Bytes → Option F) (now : ℕ) (key : Bytes) (cached : Option (CachedEntry F))
      (c : PriceCache F)
      → ((p : F) × (fetch key ≡ some p)
          × (refresh f fetch now key cached c ≡ (
            (p, none),
            record c { entries = put_entry key (record { price = p; fetched_at = now }) c.entries },
          )))
        ⊎ ((fetch key ≡ none) × (refresh f fetch now key cached c ≡ (failed_price cached, c)))
  unfolding refresh after_failure
  refresh_cases fetch now key none c = elim (Option-cases (fetch key)) [
    | inl failed ↦ inr (failed, rw (failed, refresh))
    | inr (p, done) ↦ inl (p, done, rw (done, refresh))
  ]
  refresh_cases fetch now key (some e) c = elim (Option-cases (fetch key)) [
    | inl failed ↦ inr (failed, rw (failed, refresh))
    | inr (p, done) ↦ inl (p, done, rw (done, refresh))
  ]

  -- A call where the entry of the key, if there is one, is not fresh gives the fetched price, which
  -- goes into the cache under the key and nowhere else; or, where the fetch fails, the price of the
  -- entry with the error that it is stale, or zero with an error if there is no entry, and the
  -- cache as it was.
  pub get_cases :
      (fetch : Bytes → Option F) (now : ℕ) (url : Bytes) (c : PriceCache F)
      → IsExpired c now (trim_space url)
      → ((p : F) × (fetch (trim_space url) ≡ some p)
          × ((get f fetch now url c).0 ≡ (p, none))
          × ((j : Bytes)
              → find_entry j (get f fetch now url c).1.entries ≡ (
                  if bytes_equal (trim_space url) j
                  then some (record { price = p; fetched_at = now })
                  else find_entry j c.entries)))
        ⊎ ((fetch (trim_space url) ≡ none)
            × (get f fetch now url c ≡ (failed_price (find_entry (trim_space url) c.entries), c)))
  unfolding get
  get_cases fetch now url c x =
      let key = trim_space url in
      let fetches = serve-expired fetch now key (find_entry key c.entries) c x in
      elim (refresh_cases fetch now key (find_entry key c.entries) c) [
        | inl (p, done, whole) ↦ inl (
          p,
          done,
          ap (λ r. r.0) (fetches ∙ whole),
          λ j.
              ap (λ r. find_entry j r.1.entries) (fetches ∙ whole)
              ∙ find_entry-put_entry key j (record { price = p; fetched_at = now }) c.entries,
        )
        | inr (failed, whole) ↦ inr (failed, fetches ∙ whole)
      ]
