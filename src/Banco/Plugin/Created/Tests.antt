-- ===== src/Banco/Plugin/Created/Tests.antt =====
-- An offer of 200 of gold, created and then funded with 400 of silver.
use bancod.Prelude.{
  ℕ, ◌≡◌, refl, [], ◌∷◌, Option, none, some, Bytes, text, pos, ok, err, arith, subst, length,
  ok-injective,
}
use mathlib.Core.Option.{some-injective}
use bancod.Examples.{
  TestAsset, TestKey, lib, lib_laws, scripts, assets, env, maker, gold, silver, p2tr, alice, bob,
}
use bancod.Contract.ArkLib.{IsXOnly}
use bancod.Contract.Offer as TheOffer
use bancod.Contract.Script.{Packet, other_packet}
use bancod.Contract.Taker.{ConfigData}
use bancod.Contract.Taker.Fulfill.Consistent.{IsConsistent}
use bancod.Contract.Maker.{MakerEnv, Address, CreateOfferParams, CreateOfferResult, create_offer}
use bancod.Contract.Maker.Addressed.{MakerLaws}
use bancod.Banco.Offer.{FundedOffer, Extension}
use bancod.Banco.Plugin.{MatchedOffer, World, PluginEnv, PluginError, new_plugin}
use bancod.Banco.Plugin.Decoded.{IsListed}
use bancod.Banco.Plugin.Accepts.{IsAcceptable}
use bancod.Banco.Plugin.Matches.{CarriesExtension}
use bancod.Banco.Plugin.Terms.{with_offer}
use bancod.Banco.Plugin.Created.{Funds, asked, created_offer-is_matched}
use bancod.Banco.Plugin.Tests.{
  silver_btc, silver_gold, numbers, plugin_env, world, empty_plugin, is_extension, offer_tx,
}
use bancod.Solver.Txmatch.{MsgTx}
use bancod.Solver.Builder.{Plugin, Parsed, parsed, matched, match_tx}

-- An address is written as its two keys and its prefix.
abbrev letter : TestKey → ℕ
letter alice = 1
letter bob = 2

abbrev key_of : ℕ → TestKey
key_of n = elim (lib.parse_pub_key (n ∷ [])) [ none ↦ alice | some k ↦ k ]

abbrev read_address : Bytes → Option (Address TestKey)
read_address [] = none
read_address (a ∷ []) = none
read_address (a ∷ b ∷ hrp) = some (record { hrp = hrp; signer = key_of a; vtxo_tap_key = key_of b })

abbrev addressed_maker : MakerEnv TestKey
addressed_maker = record maker {
  encode_address = λ a. some (letter a.signer ∷ letter a.vtxo_tap_key ∷ a.hrp);
  decode_full_address = read_address;
}

abbrev params : CreateOfferParams TestAsset
params = record { want_amount = 200; want_asset = some gold; cancel_at = 0; exit_delay = none }

abbrev created : CreateOfferResult
created = elim (create_offer lib scripts env addressed_maker params) [
  | ok r ↦ r
  | err e ↦ record { offer_hex = []; packet = other_packet 0; swap_address = [] }
]

runs : create_offer lib scripts env addressed_maker params ≡ ok created
unfolding create_offer bancod.Contract.Maker.is_given bancod.Contract.Maker.introspector_key
    bancod.Contract.Maker.new_maker_pk_script bancod.Contract.Maker.address_offer
    bancod.Contract.Maker.swap_address_of bancod.Contract.Script.vtxo_script
    bancod.Contract.Script.fulfill_script bancod.Contract.Script.maker_witness_program
    bancod.Contract.Maker.unaddressed bancod.Contract.Maker.encode_offer
    bancod.Contract.Offer.serialize bancod.Contract.Offer.asset_section
    bancod.Contract.Script.to_packet
runs = refl

reads_back :
    (a : Address TestKey) (s : Bytes)
    → addressed_maker.encode_address a ≡ some s
    → addressed_maker.decode_full_address s ≡ some a
reads_back a s e =
    subst (λ t. read_address t ≡ some a) (some-injective _ _ e)
      (same_keys a.hrp a.signer a.vtxo_tap_key)
  where
    same_keys :
        (hrp : Bytes) (server key : TestKey)
        → read_address (letter server ∷ letter key ∷ hrp)
          ≡ some (record { hrp = hrp; signer = server; vtxo_tap_key = key })
    same_keys hrp alice alice = refl
    same_keys hrp alice bob = refl
    same_keys hrp bob alice = refl
    same_keys hrp bob bob = refl

p2tr_wide : (k : TestKey) → length (p2tr k) ≡ 34
p2tr_wide alice = refl
p2tr_wide bob = refl

laws : MakerLaws lib scripts env addressed_maker
unfolding bancod.Contract.Maker.introspector_key
laws = record {
  p2tr_width = λ k s e. subst (λ t. length t ≡ 34) (some-injective _ _ e) (p2tr_wide k);
  address_script = λ a s e. e;
  even_key = λ k e. subst (λ j. IsXOnly lib j) (ok-injective _ _ e) refl;
}

abbrev extension : Extension TestAsset
extension = record {
  packet_by_type = λ t. some created.packet;
  asset_packet =
      record {
        asset_id = some silver;
        inputs = [];
        outputs = record { vout = 0; amount = 400 } ∷ [];
      }
      ∷ [];
}

abbrev parse_created : MsgTx → Parsed (Extension TestAsset) PluginError
parse_created tx = parsed extension

abbrev deposit : FundedOffer TestAsset TestKey
deposit = record {
  offer = asked params (p2tr alice);
  funding_txid = text "fund";
  deposit_asset = some silver;
  deposit_amount = 400;
}

abbrev built_created : Option (Plugin (World ℕ) (MatchedOffer TestAsset TestKey) PluginError)
built_created =
    new_plugin lib numbers plugin_env scripts assets env (λ ts. ts) is_extension parse_created

abbrev plugin_created : Plugin (World ℕ) (MatchedOffer TestAsset TestKey) PluginError
plugin_created = elim built_created [ none ↦ empty_plugin | some p ↦ p ]

is_built_created : built_created ≡ some plugin_created
unfolding new_plugin bancod.Solver.Builder.build bancod.Solver.Builder.with_logger
    bancod.Solver.Builder.set_solve bancod.Solver.Builder.validate
    bancod.Solver.Builder.for_extension
is_built_created = refl

carries : CarriesExtension is_extension (some offer_tx)
carries = record {
  psbt = offer_tx;
  tx = elim offer_tx.unsigned_tx [
    | some tx ↦ tx
    | none ↦ record { txid = []; tx_in = []; tx_out = []; lock_time = 0 }
  ];
  packet_present = refl;
  tx_present = refl;
  index = 1;
  out = record { value = pos 0; pk_script = text "ext" };
  at = refl;
  extension_script = refl;
}

funds :
    Funds lib scripts env addressed_maker params created is_extension parse_created
      (some offer_tx)
      deposit
unfolding carries bancod.Banco.Plugin.present_outputs create_offer bancod.Contract.Maker.is_given
    bancod.Contract.Maker.introspector_key bancod.Contract.Maker.new_maker_pk_script
    bancod.Contract.Maker.address_offer bancod.Contract.Maker.swap_address_of
    bancod.Contract.Script.vtxo_script bancod.Contract.Script.fulfill_script
    bancod.Contract.Script.maker_witness_program bancod.Contract.Maker.unaddressed
    bancod.Contract.Maker.encode_offer TheOffer.serialize TheOffer.asset_section
    bancod.Contract.Script.to_packet bancod.Banco.Offer.locate_deposit
    bancod.Banco.Offer.find_output bancod.Banco.Offer.deposit_of_groups
    bancod.Banco.Offer.deposit_of_outputs TheOffer.amount_section TheOffer.encode_tlv
    TheOffer.exit_section TheOffer.key_section bancod.Contract.Script.fulfill_ops
    bancod.Contract.Script.script_pub_key_check
funds = record {
  carries = carries;
  ext = extension;
  outs =
      record { value = pos 330; pk_script = p2tr alice }
      ∷ record { value = pos 0; pk_script = text "ext" }
      ∷ [];
  extension_parsed = refl;
  present = refl;
  packet_found = refl;
  swap = record { hrp = text "ark"; signer = bob; vtxo_tap_key = alice };
  script = p2tr alice;
  address_read = refl;
  address_script = refl;
  deposit_found = refl;
}

listed : IsListed lib plugin_env (record { offer = deposit; pair = silver_gold })
unfolding IsListed bancod.Banco.Plugin.find_matching_pair bancod.Banco.Plugin.is_match
    bancod.Banco.Pair.base bancod.Banco.Offer.deposit_asset_str bancod.Banco.Pair.quote
    bancod.Banco.Offer.want_asset_str
listed = (silver_btc ∷ silver_gold ∷ [], refl, refl)

acceptable :
    IsAcceptable lib numbers plugin_env (record { offer = deposit; pair = silver_gold }) world
unfolding bancod.Banco.Plugin.compare_prices bancod.Banco.Offer.compute_price
    bancod.Banco.Price.validate_price bancod.Banco.Price.get bancod.Banco.Price.serve
    bancod.Banco.Price.find_entry bancod.Banco.Price.refresh
acceptable = record {
  above_min = omega arith;
  below_max = omega arith;
  price_near = refl;
  priced = λ e h. absurd cc;
  affordable = λ h. absurd cc;
}

created_offer-is_matched_example :
    (o : TheOffer.Offer TestAsset TestKey) × (cfg : ConfigData TestKey) × (w' : World ℕ) × (match_tx
        plugin_created
        (some offer_tx)
        world
      ≡ (matched (record { offer = with_offer lib deposit o; pair = silver_gold }), w'))
    × (o.want_amount ≡ 200)
    × (o.want_asset ≡ some gold)
    × (env.get_config_data ≡ some cfg)
    × IsConsistent lib scripts env cfg.signer_pub_key o
created_offer-is_matched_example =
    created_offer-is_matched lib scripts env addressed_maker numbers plugin_env assets (λ ts. ts)
      is_extension parse_created params created (some offer_tx) deposit silver_gold world
      plugin_created lib_laws laws reads_back (omega arith) runs funds listed acceptable
      is_built_created
