-- ===== src/Banco/Plugin/Matching.antt =====
-- Which pair an offer is matched with.
use bancod.Prelude.{
  ℕ, suc, ◌≡◌, ◌≢◌, refl, ◌⊎◌, inl, inr, true, false, List, [], ◌∷◌, none, some, Bytes, bytes_equal,
  Bool-cases, get_elem?, take, All, arith,
}
use bancod.Contract.ArkLib.{ArkLib}
use bancod.Banco.Pair.{Pair, split_pair}
use bancod.Banco.Pair.Split.{IsNamed, base-quote, split_pair-eq-some_iff}
use bancod.Banco.Offer.{FundedOffer, want_asset_str}
use bancod.Banco.Plugin.{is_match, find_matching_pair}

module _ {A K : Type 0} (lib : ArkLib A K) where
  -- The pair at an index is the first that matches.
  pub record IsFirstMatch (o : FundedOffer A K) (ps : List Pair) (p : Pair) (i : ℕ) : Type 0 where
    pub at : get_elem? ps i ≡ some p
    pub matches : is_match lib o p ≡ true
    pub none_before : All (λ (q : Pair). is_match lib o q ≡ false) (take i ps)

  -- findMatchingPair returns the first pair whose base and quote are the names of the offer's two
  -- assets, or nil where no pair has both.
  pub find_matching_pair_cases :
      (ps : List Pair) (o : FundedOffer A K)
      → ((p : Pair) × (i : ℕ) × (find_matching_pair lib ps o ≡ some p) × IsFirstMatch o ps p i)
        ⊎ ((find_matching_pair lib ps o ≡ none) × All (λ (q : Pair). is_match lib o q ≡ false) ps)
  unfolding find_matching_pair
  find_matching_pair_cases [] o = inr (refl, tt)
  find_matching_pair_cases (q ∷ ps) o = elim (Bool-cases (is_match lib o q)) [
    | inl same ↦ inl (q, 0, rw same refl, record { at = refl; matches = same; none_before = tt })
    | inr other ↦ elim (find_matching_pair_cases ps o) [
      | inl (p, i, found, first) ↦ inl (
        p,
        suc i,
        rw other found,
        record { at = first.at; matches = first.matches; none_before = (other, first.none_before) },
      )
      | inr (missing, others) ↦ inr (rw other missing, (other, others))
    ]
  ]

  bytes_equal-nil : (s : Bytes) → s ≢ [] → bytes_equal s [] ≡ false
  bytes_equal-nil [] h = absurd (h refl)
  bytes_equal-nil (c ∷ s) h = refl

  is_match-want_btc :
      (p : Pair) (o : FundedOffer A K) (b q : Bytes)
      → o.offer.want_asset ≡ none
      → split_pair p.pair ≡ some (b, q)
      → is_match lib o p ≡ false
  unfolding is_match want_asset_str
  is_match-want_btc p o b q w e =
      let (name, clean, b_some, q_some) = (split_pair-eq-some_iff p.pair b q).0 e in
      let (same_base, same_quote) = base-quote p b q clean name in
      rw (w, same_quote, bytes_equal-nil q q_some) (ground arith)

  -- An offer that wants BTC is matched with no pair, where splitPair accepts the name of every
  -- pair: WantAssetStr is empty for BTC, and the quote of such a pair is not.
  pub find_matching_pair-want_btc :
      (ps : List Pair) (o : FundedOffer A K)
      → o.offer.want_asset ≡ none
      → All IsNamed ps
      → find_matching_pair lib ps o ≡ none
  unfolding find_matching_pair
  find_matching_pair-want_btc [] o w h = refl
  find_matching_pair-want_btc (p ∷ ps) o w ((b, q, e), h) =
      rw (is_match-want_btc p o b q w e) (find_matching_pair-want_btc ps o w h)
