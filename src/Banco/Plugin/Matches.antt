-- ===== src/Banco/Plugin/Matches.antt =====
-- What Match of the banco plugin lets through, and that it lets it through.
use bancod.Prelude.{
  ℕ, ◌≡◌, ◌≤◌, refl, sym, ◌∙◌, subst, ◌↔◌, inl, inr, Bool, true, false, [], ◌∷◌, Option, none, some,
  ltb, Bytes, Option-cases, get_elem?, ok, arith,
}
use mathlib.Core.Option.{some-injective}
use bancod.Contract.ArkLib.{ArkLib}
use bancod.Contract.Assets.{AssetLib, Transfers}
use bancod.Contract.Script.{ScriptLib}
use bancod.Contract.Taker.{TakerEnv, TxOut}
use bancod.Banco.Offer.{Extension, Float64}
use bancod.Banco.Price.{PriceError}
use bancod.Banco.Plugin.{
  MatchedOffer, World, PluginEnv, PluginError, check_amount_in_range, compare_prices, after_get,
  check_price_tolerance, check_btc_balance, new_plugin, warn, stale_feed,
}
use bancod.Banco.Plugin.Decoded.{IsOffer, IsOffer-decode_extension}
use bancod.Banco.Plugin.Accepts.{IsAcceptable, new_plugin-stages, new_plugin-accepts}
use bancod.Solver.Txmatch.{MsgTx, PsbtPacket, output_script_matching}
use bancod.Solver.Txmatch.Laws.{has_output_iff}
use bancod.Solver.Builder.{Plugin, Parsed, has_ark_extension, matched, match_tx}
use bancod.Solver.Builder.Stages.{Validates, next, done, match_tx-eq-matched_iff}

-- The transaction has an output with an extension's script.
pub record CarriesExtension (is_extension : Bytes → Bool) (packet : Option PsbtPacket)
    : Type 0 where
  pub psbt : PsbtPacket
  pub tx : MsgTx
  pub packet_present : packet ≡ some psbt
  pub tx_present : psbt.unsigned_tx ≡ some tx
  pub index : ℕ
  pub out : TxOut
  pub at : get_elem? tx.tx_out index ≡ some (some out)
  pub extension_script : is_extension out.pk_script ≡ true

CarriesExtension-has_ark_extension :
    (is_extension : Bytes → Bool) (packet : Option PsbtPacket)
    → CarriesExtension is_extension packet
    → has_ark_extension is_extension packet ≡ true
unfolding has_ark_extension output_script_matching
CarriesExtension-has_ark_extension is_extension packet c = rw c.packet_present (
    (has_output_iff (some (output_script_matching is_extension) ∷ []) c.psbt c.tx c.tx_present).1
      (c.index, c.out, c.at, tt, refl, c.extension_script))

has_ark_extension-CarriesExtension :
    (is_extension : Bytes → Bool) (psbt : PsbtPacket) (tx : MsgTx)
    → psbt.unsigned_tx ≡ some tx
    → has_ark_extension is_extension (some psbt) ≡ true
    → CarriesExtension is_extension (some psbt)
unfolding has_ark_extension output_script_matching
has_ark_extension-CarriesExtension is_extension psbt tx given e =
    let (n, out, at, i, a, s) =
      (has_output_iff (some (output_script_matching is_extension) ∷ []) psbt tx given).0 e in
    record {
      psbt = psbt;
      tx = tx;
      packet_present = refl;
      tx_present = given;
      index = n;
      out = out;
      at = at;
      extension_script = s;
    }

module _ {A K F : Type 0} (lib : ArkLib A K) (f : Float64 F) (env : PluginEnv F) where
  in_range-check :
      (m : MatchedOffer A K) (w : World F)
      → m.pair.min_amount ≤ m.offer.offer.want_amount
      → m.offer.offer.want_amount ≤ m.pair.max_amount
      → check_amount_in_range lib f env m w ≡ (ok true, w)
  unfolding check_amount_in_range
  in_range-check m w low high =
      let above : ltb m.offer.offer.want_amount m.pair.min_amount ≡ false = ground arith in
      let below : ltb m.pair.max_amount m.offer.offer.want_amount ≡ false = ground arith in
      rw (above, below) refl

  priced-after_get :
      (m : MatchedOffer A K) (price : F) (x : Option PriceError) (w : World F)
      → compare_prices lib f env m price ≡ true
      → ((y : PriceError) → x ≡ some y → f.is_zero price ≡ false)
      → (w' : World F) × (after_get lib f env m price x w ≡ (ok true, w'))
  unfolding after_get
  priced-after_get m price none w near priced = (w, rw near refl)
  priced-after_get m price (some y) w near priced =
      (warn stale_feed w, rw (priced y refl) (rw near refl))

  affordable-check :
      (m : MatchedOffer A K) (w : World F)
      → (m.offer.offer.want_asset ≡ none
          → (total : ℕ) × (env.balance ≡ some total) × (m.offer.offer.want_amount ≤ total))
      → check_btc_balance lib f env m w ≡ (ok true, w)
  unfolding check_btc_balance
  affordable-check m w h = elim (Option-cases m.offer.offer.want_asset) [
    | inr (a, g) ↦ rw g refl
    | inl g ↦
        let (total, known, enough) = h g in
        let covered : ltb total m.offer.offer.want_amount ≡ false = ground arith in
        rw (g, known, covered) refl
  ]

  IsAcceptable-Validates :
      (m : MatchedOffer A K) (w : World F)
      → IsAcceptable lib f env m w
      → (w' : World F) × Validates
          (check_amount_in_range lib f env
            ∷ check_price_tolerance lib f env
            ∷ check_btc_balance lib f env
            ∷ [])
          m
          w
          w'
  unfolding check_price_tolerance
  IsAcceptable-Validates m w a =
      let (w', near) = priced-after_get m _ _ _ a.price_near a.priced in
      (
        w',
        next (in_range-check m w a.above_min a.below_max)
            (next near (next (affordable-check m w' a.affordable) done)),
      )

  module _ {R X : Type 0} (scripts : ScriptLib K) (assets : AssetLib A) (taker : TakerEnv A K R X)
      (range_order : Transfers → Transfers) (is_extension : Bytes → Bool)
      (parse : MsgTx → Parsed (Extension A) PluginError) where
    pub match_new_plugin_iff :
        (p : Plugin (World F) (MatchedOffer A K) PluginError) (packet : Option PsbtPacket)
        (m : MatchedOffer A K) (w : World F)
        → new_plugin lib f env scripts assets taker range_order is_extension parse ≡ some p
        → ((w' : World F) × (match_tx p packet w ≡ (matched m, w'))) ↔ (
            CarriesExtension is_extension packet
            × IsOffer lib env parse packet m
            × IsAcceptable lib f env m w)
    match_new_plugin_iff p packet m w built =
        let same = some-injective _ _ (
          sym (new_plugin-stages lib f env scripts assets taker range_order is_extension parse)
          ∙ built) in
        (
          λ (w', e).
              let (o, a) =
                new_plugin-accepts lib f env scripts assets taker range_order is_extension parse p
                  packet m w w' built e in
              let e' = subst (λ q. match_tx q packet w ≡ (matched m, w')) (sym same) e in
              let (filtered, rest) = (match_tx-eq-matched_iff _ packet w m w').0 e' in
              let here =
                subst (λ x. has_ark_extension is_extension x ≡ true) o.packet_present filtered.0 in
              (
                subst (CarriesExtension is_extension) (sym o.packet_present)
                    (has_ark_extension-CarriesExtension is_extension o.psbt o.tx o.tx_present here),
                o,
                a,
              ),
          λ (c, o, a).
              let (w', valid) = IsAcceptable-Validates m w a in
              (
                w',
                subst (λ q. match_tx q packet w ≡ (matched m, w')) same
                    ((match_tx-eq-matched_iff _ packet w m w').1 (
                      (CarriesExtension-has_ark_extension is_extension packet c, tt),
                      (w, IsOffer-decode_extension lib env parse packet m w o, valid),
                    )),
              ),
        )
