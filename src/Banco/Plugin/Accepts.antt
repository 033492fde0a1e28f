-- ===== src/Banco/Plugin/Accepts.antt =====
-- What Match of the banco plugin lets through.
use bancod.Prelude.{
  ℕ, ◌≡◌, ◌≤◌, refl, sym, ◌∙◌, ap, subst, inl, inr, Bool, true, false, [], ◌∷◌, Option, none, some,
  ltb, Bytes, Bool-cases, Option-cases, ok, arith,
}
use bancod.Contract.ArkLib.{ArkLib}
use bancod.Contract.Assets.{AssetLib, Transfers}
use bancod.Contract.Script.{ScriptLib}
use bancod.Contract.Taker.{TakerEnv}
use bancod.Banco.Offer.{Extension, Float64}
use bancod.Banco.Price.{PriceError, get}
use bancod.Banco.Plugin.{
  MatchedOffer, World, PluginEnv, PluginError, decode, check_amount_in_range, compare_prices,
  after_get, check_price_tolerance, check_btc_balance, new_plugin, fulfill,
}
use mathlib.Core.Option.{some-injective}
use bancod.Banco.Plugin.Decoded.{IsOffer, decode_extension-ok}
use bancod.Solver.Txmatch.{MsgTx, PsbtPacket}
use bancod.Solver.Builder.{
  Plugin, Parsed, decode_extension, has_ark_extension, for_extension, filter, for_intents,
  set_decode, validate, set_solve, with_logger, build, matched, match_tx,
}
use bancod.Solver.Builder.Stages.{Validates, next, done, match_tx-eq-matched_iff}

module _ {A K F : Type 0} (lib : ArkLib A K) (f : Float64 F) (env : PluginEnv F) where
  -- The three checks of the validators, for the prices that the plugin has cached.
  pub record IsAcceptable (m : MatchedOffer A K) (w : World F) : Type 0 where
    pub above_min : m.pair.min_amount ≤ m.offer.offer.want_amount
    pub below_max : m.offer.offer.want_amount ≤ m.pair.max_amount
    pub price_near :
        compare_prices lib f env m (get f env.fetch env.now m.pair.price_feed w.prices).0.0 ≡ true
    -- a price that comes with an error is not 0
    pub priced :
        (e : PriceError)
        → (get f env.fetch env.now m.pair.price_feed w.prices).0.1 ≡ some e
        → f.is_zero (get f env.fetch env.now m.pair.price_feed w.prices).0.0 ≡ false
    pub affordable :
        m.offer.offer.want_asset ≡ none
        → (total : ℕ) × (env.balance ≡ some total) × (m.offer.offer.want_amount ≤ total)

  check_amount_in_range-true :
      (m : MatchedOffer A K) (w w' : World F)
      → check_amount_in_range lib f env m w ≡ (ok true, w')
      → (m.pair.min_amount ≤ m.offer.offer.want_amount)
        × (m.offer.offer.want_amount ≤ m.pair.max_amount)
        × (w ≡ w')
  unfolding check_amount_in_range
  check_amount_in_range-true m w w' e =
      elim (Bool-cases (ltb m.offer.offer.want_amount m.pair.min_amount)) [
        | inl low ↦ let e' = rw low at e in let q = ap (λ r. r.0) e' in absurd cc
        | inr high ↦ elim (Bool-cases (ltb m.pair.max_amount m.offer.offer.want_amount)) [
          | inl above ↦ let e' = rw (high, above) at e in let q = ap (λ r. r.0) e' in absurd cc
          | inr within ↦
              let e' = rw (high, within) at e in (ground arith, ground arith, ap (λ r. r.1) e')
        ]
      ]

  after_get-true :
      (m : MatchedOffer A K) (price : F) (x : Option PriceError) (w w' : World F)
      → after_get lib f env m price x w ≡ (ok true, w')
      → (compare_prices lib f env m price ≡ true)
        × ((y : PriceError) → x ≡ some y → f.is_zero price ≡ false)
  unfolding after_get
  after_get-true m price none w w' e = let q = ap (λ r. r.0) e in (cc, λ y h. absurd cc)
  after_get-true m price (some x) w w' e = elim (Bool-cases (f.is_zero price)) [
    | inl gone ↦ let e' = rw gone at e in let q = ap (λ r. r.0) e' in absurd cc
    | inr there ↦ let e' = rw there at e in let q = ap (λ r. r.0) e' in (cc, λ y h. there)
  ]

  check_btc_balance-true :
      (m : MatchedOffer A K) (w w' : World F)
      → check_btc_balance lib f env m w ≡ (ok true, w')
      → m.offer.offer.want_asset ≡ none
      → (total : ℕ) × (env.balance ≡ some total) × (m.offer.offer.want_amount ≤ total)
  unfolding check_btc_balance
  check_btc_balance-true m w w' e h = elim (Option-cases env.balance) [
    | inl g ↦ let e' = rw (h, g) at e in let q = ap (λ r. r.0) e' in absurd cc
    | inr (total, g) ↦ elim (Bool-cases (ltb total m.offer.offer.want_amount)) [
      | inl low ↦ let e' = rw (h, g, low) at e in let q = ap (λ r. r.0) e' in absurd cc
      | inr enough ↦ (total, g, ground arith)
    ]
  ]

  module _ {R X : Type 0} (scripts : ScriptLib K) (assets : AssetLib A) (taker : TakerEnv A K R X)
      (range_order : Transfers → Transfers) (is_extension : Bytes → Bool)
      (parse : MsgTx → Parsed (Extension A) PluginError) where
    -- NewPlugin does not panic, and its plugin has the filter, the decoder and the three
    -- validators in the order of the code.
    pub new_plugin-stages :
        new_plugin lib f env scripts assets taker range_order is_extension parse
        ≡ some (record {
          filters = has_ark_extension is_extension ∷ [];
          decode = decode_extension parse (decode lib env);
          validators =
              check_amount_in_range lib f env
              ∷ check_price_tolerance lib f env
              ∷ check_btc_balance lib f env
              ∷ [];
          solve = fulfill lib f env scripts assets taker range_order;
          log = true;
        })
    unfolding new_plugin for_extension filter for_intents set_decode validate set_solve with_logger
        build
    new_plugin-stages = refl

    Validates-IsAcceptable :
        {m : MatchedOffer A K} {w w' : World F}
        → Validates
            (check_amount_in_range lib f env
              ∷ check_price_tolerance lib f env
              ∷ check_btc_balance lib f env
              ∷ [])
            m
            w
            w'
        → IsAcceptable m w
    unfolding check_price_tolerance
    Validates-IsAcceptable {m} {w}
          (next {s' = w₁} e₁ (next {s' = w₂} e₂ (next {s' = w₃} e₃ done))) =
        let (low, high, same) = check_amount_in_range-true m w w₁ e₁ in
        let e₂' = subst (λ v. check_price_tolerance lib f env m v ≡ (ok true, w₂)) (sym same) e₂ in
        let (near, priced) = after_get-true m _ _ _ w₂ e₂' in
        record {
          above_min = low;
          below_max = high;
          price_near = near;
          priced = priced;
          affordable = check_btc_balance-true m w₂ w₃ e₃;
        }

    -- An offer that Match of the plugin that NewPlugin builds hands to Solve is one that the
    -- transaction's extension carries, with the first configured pair for its two assets; the
    -- wanted amount is within the pair's bounds; the offer's price passes the tolerance against
    -- the price that the cache gives; and where BTC is wanted, the wallet's offchain balance is
    -- known and covers it.
    pub new_plugin-accepts :
        (p : Plugin (World F) (MatchedOffer A K) PluginError) (packet : Option PsbtPacket)
        (m : MatchedOffer A K) (w w' : World F)
        → new_plugin lib f env scripts assets taker range_order is_extension parse ≡ some p
        → match_tx p packet w ≡ (matched m, w')
        → IsOffer lib env parse packet m × IsAcceptable m w
    new_plugin-accepts p packet m w w' built e =
        let same = some-injective _ _ (sym new_plugin-stages ∙ built) in
        let e' = subst (λ q. match_tx q packet w ≡ (matched m, w')) (sym same) e in
        let (filtered, (w₁, decoded, valid)) = (match_tx-eq-matched_iff _ packet w m w').0 e' in
        let (is_offer, kept) = decode_extension-ok lib env parse packet m w w₁ decoded in
        (is_offer, subst (λ v. IsAcceptable m v) (sym kept) (Validates-IsAcceptable valid))
