-- ===== src/Banco/Plugin/Created.antt =====
-- An offer that CreateOffer of pkg/contract/maker.go made, once its address is funded.
mod Tests
use bancod.Prelude.{
  ◌≡◌, refl, sym, ◌∙◌, ap, subst, List, Option, none, some, Bytes, Bool, IsU64, ok,
}
use mathlib.Core.Option.{some-injective}
use bancod.Contract.ArkLib.{ArkLib, ArkLaws}
use bancod.Contract.Offer as TheOffer
use bancod.Contract.Assets.{AssetLib, Transfers}
use bancod.Contract.Script.{ScriptLib, packet_type}
use bancod.Contract.Script.Commits.{find_banco_offer-to_packet}
use bancod.Contract.Taker.{TakerEnv, TxOut, ConfigData}
use bancod.Contract.Taker.Fulfill.Consistent.{IsConsistent}
use bancod.Contract.Maker.{MakerEnv, Address, CreateOfferParams, CreateOfferResult, create_offer}
use bancod.Contract.Maker.Addressed.{MakerLaws}
use bancod.Contract.Maker.Accepted.{IsCreated, create_offer-IsCreated}
use bancod.Banco.Pair.{Pair}
use bancod.Banco.Offer.{FundedOffer, Extension, Float64, locate_deposit, new_offer_from_extension}
use bancod.Banco.Plugin.{MatchedOffer, World, PluginEnv, PluginError, new_plugin, present_outputs}
use bancod.Banco.Plugin.Decoded.{IsOffer, IsListed}
use bancod.Banco.Plugin.Accepts.{IsAcceptable}
use bancod.Banco.Plugin.Terms.{
  with_offer, locate_deposit-with_offer, locate_deposit-offer, with_offer-IsListed,
  with_offer-IsAcceptable,
}
use bancod.Banco.Plugin.Matches.{CarriesExtension, match_new_plugin_iff}
use bancod.Solver.Txmatch.{MsgTx, PsbtPacket}
use bancod.Solver.Builder.{Plugin, Parsed, parsed, matched, match_tx}

-- The offer as its parameters and its swap script give it.
abbrev pub asked : {A K : Type 0} → CreateOfferParams A → Bytes → TheOffer.Offer A K
asked params script = record TheOffer.empty_offer {
  swap_pk_script = script;
  want_amount = params.want_amount;
  want_asset = params.want_asset;
}

module _ {A K R X : Type 0} (lib : ArkLib A K) (scripts : ScriptLib K) (taker : TakerEnv A K R X)
    (maker : MakerEnv K) where
  -- A transaction that carries the result's packet and funds the result's address, with the
  -- deposit that is found at that address.
  pub record Funds (params : CreateOfferParams A) (r : CreateOfferResult)
      (is_extension : Bytes → Bool) (parse : MsgTx → Parsed (Extension A) PluginError)
      (packet : Option PsbtPacket) (deposit : FundedOffer A K) : Type 0 where
    pub carries : CarriesExtension is_extension packet
    pub ext : Extension A
    pub outs : List TxOut
    pub extension_parsed : parse carries.tx ≡ parsed ext
    pub present : present_outputs carries.tx.tx_out ≡ some outs
    pub packet_found : ext.packet_by_type packet_type ≡ some r.packet
    pub swap : Address K
    pub script : Bytes
    pub address_read : maker.decode_full_address r.swap_address ≡ some swap
    pub address_script : maker.address_pk_script swap ≡ some script
    pub deposit_found :
        locate_deposit lib
          (record { txid = carries.tx.txid; outputs = outs })
          ext
          (asked params script)
        ≡ some deposit

  module _ {F : Type 0} (f : Float64 F) (env : PluginEnv F) (assets : AssetLib A)
      (range_order : Transfers → Transfers) (is_extension : Bytes → Bool)
      (parse : MsgTx → Parsed (Extension A) PluginError) where
    funded-IsOffer :
        (params : CreateOfferParams A) (r : CreateOfferResult) (packet : Option PsbtPacket)
        (deposit : FundedOffer A K) (p : Pair)
        (fund : Funds params r is_extension parse packet deposit)
        (c : IsCreated lib scripts taker maker params r)
        → ArkLaws lib
        → c.offer.swap_pk_script ≡ fund.script
        → c.offer.want_asset ≡ deposit.offer.want_asset
        → IsListed lib env (record { offer = deposit; pair = p })
        → IsOffer lib env parse packet (record { offer = with_offer lib deposit c.offer; pair = p })
    unfolding new_offer_from_extension
    funded-IsOffer params r packet deposit p fund c laws paid same listed = record {
      tx = fund.carries.tx;
      psbt = fund.carries.psbt;
      packet_present = fund.carries.packet_present;
      tx_present = fund.carries.tx_present;
      ext = fund.ext;
      outs = fund.outs;
      extension_parsed = fund.extension_parsed;
      present = fund.present;
      offer_read =
          let read =
            find_banco_offer-to_packet lib laws c.offer r.packet fund.ext.packet_by_type c.encodable
              c.packed fund.packet_found in
          let found =
            locate_deposit-with_offer lib _ fund.ext (asked params fund.script) c.offer deposit
              fund.deposit_found paid in
          rw read (ap ok found);
      listed = with_offer-IsListed lib f env deposit c.offer p same listed;
    }

    -- What a maker creates is what the plugin matches, end to end: where a transaction carries the
    -- packet of CreateOffer's result and funds its address, a pair is the first configured one for
    -- the deposit and the asset asked for, and the three checks pass for them, Match hands Solve
    -- an offer with the amount and the asset that were asked for and the deposit that was made,
    -- whose swap script is that of its contract with the server of the maker's wallet. That is for
    -- a uint64 amount, libraries that keep their laws, and an introspector's key with an even y.
    pub created_offer-is_matched :
        (params : CreateOfferParams A) (r : CreateOfferResult) (packet : Option PsbtPacket)
        (deposit : FundedOffer A K) (p : Pair) (w : World F)
        (plugin : Plugin (World F) (MatchedOffer A K) PluginError)
        → ArkLaws lib
        → MakerLaws lib scripts taker maker
        → ((a : Address K) (s : Bytes)
            → maker.encode_address a ≡ some s
            → maker.decode_full_address s ≡ some a)
        → IsU64 params.want_amount
        → create_offer lib scripts taker maker params ≡ ok r
        → Funds params r is_extension parse packet deposit
        → IsListed lib env (record { offer = deposit; pair = p })
        → IsAcceptable lib f env (record { offer = deposit; pair = p }) w
        → new_plugin lib f env scripts assets taker range_order is_extension parse ≡ some plugin
        → (o : TheOffer.Offer A K) × (cfg : ConfigData K) × (w' : World F) × (match_tx plugin packet
              w
            ≡ (matched (record { offer = with_offer lib deposit o; pair = p }), w'))
          × (o.want_amount ≡ params.want_amount)
          × (o.want_asset ≡ params.want_asset)
          × (taker.get_config_data ≡ some cfg)
          × IsConsistent lib scripts taker cfg.signer_pub_key o
    created_offer-is_matched params r packet deposit p w plugin laws maker_laws reads small made
          fund listed good built =
        let c = create_offer-IsCreated lib scripts taker maker params r maker_laws small made in
        let swap =
          some-injective _ _ (sym fund.address_read ∙ reads c.swap r.swap_address c.addressed) in
        let paid =
          some-injective _ _
            (sym c.swap_script ∙ ap maker.address_pk_script (sym swap) ∙ fund.address_script) in
        let held = locate_deposit-offer lib _ fund.ext _ deposit fund.deposit_found in
        let amount = c.amount_asked ∙ ap (λ (o : TheOffer.Offer A K). o.want_amount) (sym held) in
        let asset = c.asset_asked ∙ ap (λ (o : TheOffer.Offer A K). o.want_asset) (sym held) in
        let (w', e) =
          (match_new_plugin_iff lib f env scripts assets taker range_order is_extension parse plugin
              packet _ w built).1
            (
              fund.carries,
              funded-IsOffer params r packet deposit p fund c laws paid asset listed,
              with_offer-IsAcceptable lib f env deposit c.offer p w amount asset good,
            ) in
        (c.offer, c.cfg, w', e, c.amount_asked, c.asset_asked, c.configured, c.consistent)
