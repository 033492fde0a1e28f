-- ===== src/Contract/Script/Tests.antt =====
-- The scripts and the packet of concrete offers.
use bancod.Prelude.{◌≡◌, refl, List, [], some, ok, err, arith}
use bancod.Examples.{TestKey, lib, lib_laws, scripts, gold_offer, alice, bob}
use bancod.Contract.Offer.{serialize, asset_section}
use bancod.Contract.Offer.RoundTrip.{IsEncodable}
use bancod.Contract.Script.{Closure, Packet, other_packet, to_packet, find_banco_offer, vtxo_script}
use bancod.Contract.Script.Commits.{find_banco_offer-to_packet}

gold_offer-IsEncodable : IsEncodable lib gold_offer
gold_offer-IsEncodable = record {
  swap_width = omega arith;
  want_amount = omega arith;
  ratio_num = omega arith;
  ratio_den = omega arith;
  cancel_at = omega arith;
  maker_width = refl;
  maker_key = tt;
  introspector_key = alice;
  introspector_given = refl;
  introspector_form = refl;
  exit_delay = tt;
}

-- The packet of the offer.
abbrev gold_packet : Packet
gold_packet = elim (to_packet lib gold_offer) [ ok p ↦ p | err e ↦ other_packet 0 ]

packed : to_packet lib gold_offer ≡ ok gold_packet
unfolding to_packet serialize asset_section
packed = refl

find_banco_offer-to_packet_example :
    find_banco_offer lib (λ t. some gold_packet) ≡ ok (some gold_offer)
find_banco_offer-to_packet_example =
    find_banco_offer-to_packet lib lib_laws gold_offer gold_packet (λ t. some gold_packet)
      gold_offer-IsEncodable packed refl

-- The closures of the offer, for bob's server.
abbrev gold_closures : List (Closure TestKey)
gold_closures = elim (vtxo_script lib scripts bob gold_offer) [ ok cs ↦ cs | err e ↦ [] ]
