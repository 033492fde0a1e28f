-- ===== src/Banco/Plugin.antt =====
-- pkg/banco/plugin.go, events.go and config.go: the plugin that the solver runs for offers.
pub mod Tests
pub mod Matching
pub mod Decoded
pub mod Accepts
pub mod Events
pub mod Matches
pub mod Terms
pub mod Created
use bancod.Prelude.{
  ℕ, ◌≡◌, Bool, true, false, not, ◌&&◌, ◌||◌, List, [], ◌∷◌, ◌++◌, Option, none, some, ◌==◌, ltb,
  if◌then◌else◌, Bytes, bytes_equal, Result, ok, err,
}
use bancod.Contract.ArkLib.{ArkLib}
use bancod.Contract.Assets.{AssetLib, Transfers}
use bancod.Contract.Script.{ScriptLib, FindError}
use bancod.Contract.Taker.{TakerEnv, TxOut}
use bancod.Contract.Taker.Fulfill.{fulfill_offer}
use bancod.Banco.Pair.{Pair, base, quote}
use bancod.Banco.Offer.{
  FundedOffer, Tx, Extension, Float64, new_offer_from_extension, deposit_asset_str, want_asset_str,
  compute_price,
}
use bancod.Banco.Price.{PriceCache, PriceError, get, validate_price}
use bancod.Solver.Txmatch.{MsgTx, PsbtPacket}
use bancod.Solver.Builder.{
  StageError, skip, failed, panicked, Builder, Plugin, Parsed, validate, set_solve, with_logger,
  build, for_extension,
}

pub record MatchedOffer (A K : Type 0) : Type 0 where
  pub offer : FundedOffer A K
  pub pair : Pair

pub record FulfillmentEvent : Type 0 where
  pub pair : Bytes
  pub deposit_asset : Bytes
  pub deposit_amount : ℕ
  pub want_asset : Bytes
  pub want_amount : ℕ
  pub offer_txid : Bytes
  pub fulfill_txid : Bytes
  pub timestamp : ℕ

-- The errors that decode and the validators return.
pub data PluginError : Type 0 where
  bad_offer : FindError → PluginError
  bad_extension list_pairs_failed balance_failed : PluginError

-- The warnings that the stages log themselves.
pub data Warning : Type 0 where
  feed_unavailable stale_feed insufficient_balance fulfillment_failed : Warning

-- What the stages change: the price cache, the warnings, and the events that the listener got.
pub record World (F : Type 0) : Type 0 where
  pub prices : PriceCache F
  pub warnings : List Warning
  pub events : List FulfillmentEvent

-- The rest of the plugin's fields, as what their calls answer: the repository, which may be missing
-- or fail; the feed; the wallet's offchain balance; whether there is a listener; and time.Now(), for the
-- price cache and for the event.
pub record PluginEnv (F : Type 0) : Type 0 where
  pub list_pairs : Option (Option (List Pair))
  pub fetch : Bytes → Option F
  pub balance : Option ℕ
  pub has_listener : Bool
  pub now : ℕ
  pub fulfilled_at : ℕ

-- Config.WithDefault, for the ttl in nanoseconds; a missing logger gets a default.
pub with_default_ttl : ℕ → ℕ
with_default_ttl ttl = if ttl == 0 then 300000000000 else ttl

pub warn : {F : Type 0} → Warning → World F → World F
warn x w = record w { warnings = w.warnings ++ x ∷ [] }

-- The outputs of a transaction; `none` where one of them is nil, which dereferencing it panics on.
unfoldable pub present_outputs : List (Option TxOut) → Option (List TxOut)
present_outputs [] = some []
present_outputs (none ∷ outs) = none
present_outputs (some out ∷ outs) = elim (present_outputs outs) [
  | none ↦ none
  | some rest ↦ some (out ∷ rest)
]

module _ {A K : Type 0} (lib : ArkLib A K) where
  -- The two comparisons of findMatchingPair.
  pub is_match : FundedOffer A K → Pair → Bool
  is_match o p =
      bytes_equal (base p) (deposit_asset_str lib o) && bytes_equal (quote p) (want_asset_str lib o)

  pub find_matching_pair : List Pair → FundedOffer A K → Option Pair
  find_matching_pair [] o = none
  find_matching_pair (p ∷ ps) o =
      let rest = find_matching_pair ps o in if is_match o p then some p else rest

  module _ {F : Type 0} (env : PluginEnv F) where
    -- decode, from the answer of NewOfferFromExtension on.
    pub match_offer :
        Result FindError (Option (FundedOffer A K))
        → Result (StageError PluginError) (MatchedOffer A K)
    match_offer (err e) = err (failed (bad_offer e))
    match_offer (ok none) = err skip
    match_offer (ok (some o)) = elim env.list_pairs [
      | none ↦ err skip
      | some listed ↦ elim listed [
        | none ↦ err (failed list_pairs_failed)
        | some pairs ↦ elim (find_matching_pair pairs o) [
          | none ↦ err skip
          | some p ↦ ok (record { offer = o; pair = p })
        ]
      ]
    ]

    pub decode_tx : MsgTx → Extension A → Result (StageError PluginError) (MatchedOffer A K)
    decode_tx tx ext = elim (present_outputs tx.tx_out) [
      | none ↦ err panicked
      | some outs ↦
          match_offer (new_offer_from_extension lib (record { txid = tx.txid; outputs = outs }) ext)
    ]

    pub decode :
        Option PsbtPacket
        → Extension A
        → World F
        → Result (StageError PluginError) (MatchedOffer A K) × World F
    decode none ext w = (err panicked, w)
    decode (some packet) ext w = elim packet.unsigned_tx [
      | none ↦ (err panicked, w)
      | some tx ↦ (decode_tx tx ext, w)
    ]

-- The validators and the action; they read the clock and the feed at `env`.
module _ {A K F : Type 0} (lib : ArkLib A K) (f : Float64 F) (env : PluginEnv F) where
  pub check_amount_in_range :
      MatchedOffer A K → World F → Result (StageError PluginError) Bool × World F
  check_amount_in_range m w =
      if ltb m.offer.offer.want_amount m.pair.min_amount
        || ltb m.pair.max_amount m.offer.offer.want_amount
      then (ok false, w)
      else (ok true, w)

  -- checkPriceTolerance from the feed's price on.
  pub compare_prices : MatchedOffer A K → F → Bool
  compare_prices m price =
      let feed_price = if m.pair.invert_price then f.div f.one price else price in
      elim (compute_price lib f m.offer m.pair) [
        | none ↦ false
        | some offer_price ↦ validate_price f offer_price feed_price
      ]

  pub after_get :
      MatchedOffer A K
      → F
      → Option PriceError
      → World F
      → Result (StageError PluginError) Bool × World F
  after_get m price none w = (ok (compare_prices m price), w)
  after_get m price (some e) w =
      if f.is_zero price
      then (ok false, warn feed_unavailable w)
      else (ok (compare_prices m price), warn stale_feed w)

  pub check_price_tolerance :
      MatchedOffer A K → World F → Result (StageError PluginError) Bool × World F
  check_price_tolerance m w =
      let ((price, e), cache) = get f env.fetch env.now m.pair.price_feed w.prices in
      after_get m price e (record w { prices = cache })

  pub check_btc_balance :
      MatchedOffer A K → World F → Result (StageError PluginError) Bool × World F
  check_btc_balance m w = elim m.offer.offer.want_asset [
    | some a ↦ (ok true, w)
    | none ↦ elim env.balance [
      | none ↦ (err (failed balance_failed), w)
      | some total ↦
          if ltb total m.offer.offer.want_amount
          then (ok false, warn insufficient_balance w)
          else (ok true, w)
    ]
  ]

  pub event_of : MatchedOffer A K → Bytes → FulfillmentEvent
  event_of m ark_txid = record {
    pair = m.pair.pair;
    deposit_asset = deposit_asset_str lib m.offer;
    deposit_amount = m.offer.deposit_amount;
    want_asset = want_asset_str lib m.offer;
    want_amount = m.offer.offer.want_amount;
    offer_txid = m.offer.funding_txid;
    fulfill_txid = ark_txid;
    timestamp = env.fulfilled_at;
  }

  module _ {R X : Type 0} (scripts : ScriptLib K) (assets : AssetLib A) (taker : TakerEnv A K R X)
      (range_order : Transfers → Transfers) where
    pub fulfill : MatchedOffer A K → World F → World F
    fulfill m w = elim (fulfill_offer lib scripts assets taker range_order m.offer.offer) [
      | err e ↦ warn fulfillment_failed w
      | ok ark_txid ↦
          if env.has_listener then record w { events = w.events ++ event_of m ark_txid ∷ [] } else w
    ]

    -- NewPlugin. `is_extension` and `parse` are the extension library's IsExtension and
    -- NewExtensionFromTx.
    pub new_plugin :
        (Bytes → Bool)
        → (MsgTx → Parsed (Extension A) PluginError)
        → Option (Plugin (World F) (MatchedOffer A K) PluginError)
    new_plugin is_extension parse = build (
        with_logger true (
          set_solve fulfill (
            validate (some check_btc_balance) (
              validate (some check_price_tolerance) (
                validate (some check_amount_in_range)
                  (for_extension is_extension parse (decode lib env)))))))
