-- ===== src/Banco/Plugin/Tests.antt =====
-- The plugin on a transaction that offers silver for gold.
use bancod.Prelude.{
  ℕ, ◌*◌, ◌/◌, ◌^◌, ◌≡◌, refl, Bool, true, false, [], ◌∷◌, Option, none, some, ◌==◌, leb, Bytes,
  text, bytes_equal, All, pos, ok, err,
}
use bancod.Examples.{
  TestAsset, TestKey, lib, scripts, assets, env, gold_offer, btc_offer, silver, p2tr, alice,
}
use bancod.Contract.Script.{Packet, other_packet, to_packet}
use bancod.Banco.Pair.{Pair, split_pair}
use bancod.Banco.Pair.Split.{IsNamed}
use bancod.Banco.Offer.{FundedOffer, Extension, Float64}
use bancod.Banco.Plugin.{
  MatchedOffer, World, PluginEnv, PluginError, find_matching_pair, new_plugin,
}
use bancod.Solver.Txmatch.{MsgTx, PsbtPacket}
use bancod.Solver.Builder.{skip, Plugin, Parsed, parsed, Match, matched, match_tx}

abbrev pub silver_gold : Pair
silver_gold = record {
  pair = text "silver/gold";
  min_amount = 1;
  max_amount = 1000;
  base_decimals = 0;
  quote_decimals = 0;
  price_feed = text "feed";
  invert_price = false;
}

abbrev pub silver_btc : Pair
silver_btc = record silver_gold { pair = text "silver/BTC" }

abbrev btc_funded : FundedOffer TestAsset TestKey
btc_funded = record {
  offer = btc_offer;
  funding_txid = text "fund";
  deposit_asset = some silver;
  deposit_amount = 400;
}

silver_btc-IsNamed : All IsNamed (silver_btc ∷ [])
unfolding split_pair
silver_btc-IsNamed = ((text "silver", text "BTC", refl), tt)

abbrev pub numbers : Float64 ℕ
numbers = record {
  of_uint64 = λ n. n;
  pow10 = λ n. 10 ^ n;
  zero = 0;
  one = 1;
  lower_margin = 1;
  upper_margin = 2;
  mul = λ a b. a * b;
  div = λ a b. a / b;
  ge = λ a b. leb b a;
  is_zero = λ a. a == 0;
}

-- 400 of silver for 200 of gold, at a price of 2.
abbrev pub plugin_env : PluginEnv ℕ
plugin_env = record {
  list_pairs = some (some (silver_btc ∷ silver_gold ∷ []));
  fetch = λ url. some 2;
  balance = some 5000;
  has_listener = true;
  now = 9;
  fulfilled_at = 10;
}

abbrev offer_packet : Packet
offer_packet = elim (to_packet lib gold_offer) [ ok p ↦ p | err e ↦ other_packet 0 ]

abbrev offer_extension : Extension TestAsset
offer_extension = record {
  packet_by_type = λ t. some offer_packet;
  asset_packet =
      record {
        asset_id = some silver;
        inputs = [];
        outputs = record { vout = 0; amount = 400 } ∷ [];
      }
      ∷ [];
}

abbrev pub offer_tx : PsbtPacket
offer_tx = record {
  unsigned_tx = some (record {
    txid = text "fund";
    tx_in = [];
    tx_out =
        some (record { value = pos 330; pk_script = p2tr alice })
        ∷ some (record { value = pos 0; pk_script = text "ext" })
        ∷ [];
    lock_time = 0;
  });
  unknown_keys = [];
}

abbrev pub world : World ℕ
world = record { prices = record { ttl = 100; entries = [] }; warnings = []; events = [] }

abbrev pub empty_plugin : Plugin (World ℕ) (MatchedOffer TestAsset TestKey) PluginError
empty_plugin = record {
  filters = [];
  decode = λ tx w. (err skip, w);
  validators = [];
  solve = λ m w. w;
  log = false;
}

abbrev pub is_extension : Bytes → Bool
is_extension s = bytes_equal s (text "ext")

abbrev pub parse : MsgTx → Parsed (Extension TestAsset) PluginError
parse tx = parsed offer_extension

abbrev pub built : Option (Plugin (World ℕ) (MatchedOffer TestAsset TestKey) PluginError)
built = new_plugin lib numbers plugin_env scripts assets env (λ ts. ts) is_extension parse

abbrev pub plugin : Plugin (World ℕ) (MatchedOffer TestAsset TestKey) PluginError
plugin = elim built [ none ↦ empty_plugin | some p ↦ p ]

abbrev no_match : MatchedOffer TestAsset TestKey
no_match = record { offer = btc_funded; pair = silver_btc }

abbrev pub intent : MatchedOffer TestAsset TestKey
intent = record {
  offer = record {
    offer = gold_offer;
    funding_txid = text "fund";
    deposit_asset = some silver;
    deposit_amount = 400;
  };
  pair = silver_gold;
}

abbrev left : World ℕ
left = (match_tx plugin (some offer_tx) world).1

is_matched : match_tx plugin (some offer_tx) world ≡ (matched intent, left)
unfolding bancod.Solver.Builder.for_intents bancod.Solver.Builder.filter
    bancod.Solver.Builder.set_decode bancod.Solver.Builder.validate bancod.Solver.Builder.set_solve
    bancod.Solver.Builder.with_logger bancod.Solver.Builder.build bancod.Solver.Builder.run_filters
    bancod.Solver.Builder.of_error bancod.Solver.Builder.after_validate
    bancod.Solver.Builder.run_validators bancod.Solver.Builder.after_decode
    bancod.Solver.Builder.match_tx bancod.Solver.Builder.has_ark_extension
    bancod.Solver.Builder.decode_parsed bancod.Solver.Builder.decode_extension
    bancod.Solver.Builder.for_extension bancod.Solver.Txmatch.has_output
    bancod.Solver.Txmatch.match_output bancod.Solver.Txmatch.output_script_matching
    bancod.Solver.Txmatch.apply_opts bancod.Banco.Plugin.present_outputs
    bancod.Banco.Plugin.is_match bancod.Banco.Plugin.find_matching_pair
    bancod.Banco.Plugin.match_offer bancod.Banco.Plugin.decode_tx bancod.Banco.Plugin.decode
    bancod.Banco.Plugin.check_amount_in_range bancod.Banco.Plugin.compare_prices
    bancod.Banco.Plugin.after_get bancod.Banco.Plugin.check_price_tolerance
    bancod.Banco.Plugin.check_btc_balance bancod.Banco.Plugin.warn bancod.Banco.Plugin.new_plugin
    bancod.Banco.Pair.split_from bancod.Banco.Pair.split_n2 bancod.Banco.Pair.first_part
    bancod.Banco.Pair.second_part bancod.Banco.Pair.base bancod.Banco.Pair.quote
    bancod.Banco.Offer.find_output bancod.Banco.Offer.deposit_of_outputs
    bancod.Banco.Offer.deposit_of_groups bancod.Banco.Offer.locate_deposit
    bancod.Banco.Offer.new_offer_from_extension bancod.Banco.Offer.deposit_asset_str
    bancod.Banco.Offer.want_asset_str bancod.Banco.Offer.compute_price bancod.Banco.Price.is_space
    bancod.Banco.Price.trim_left bancod.Banco.Price.trim_space bancod.Banco.Price.find_entry
    bancod.Banco.Price.put_entry bancod.Banco.Price.after_failure bancod.Banco.Price.refresh
    bancod.Banco.Price.serve bancod.Banco.Price.get bancod.Banco.Price.validate_price
    bancod.Contract.Script.to_packet bancod.Contract.Script.decode_packet
    bancod.Contract.Script.find_banco_offer bancod.Contract.Offer.serialize
    bancod.Contract.Offer.asset_section bancod.Contract.Offer.encode_tlv
    bancod.Contract.Offer.amount_section bancod.Contract.Offer.key_section
    bancod.Contract.Offer.exit_section bancod.Contract.Offer.deserialize_offer
    bancod.Contract.Offer.parse_loop bancod.Contract.Offer.set_field
    bancod.Contract.Offer.check_required
is_matched = refl
