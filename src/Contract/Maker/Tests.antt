-- ===== src/Contract/Maker/Tests.antt =====
-- A concrete offer, created.
use mathlib.Core.Option.{some-injective}
use bancod.Contract.ArkLib.{IsXOnly}
use bancod.Contract.Maker.{introspector_key}
use bancod.Examples.{p2tr}
use bancod.Prelude.{◌≡◌, refl, subst, length, ok-injective, [], none, some, ok, err, arith}
use bancod.Examples.{TestAsset, TestKey, lib, lib_laws, scripts, env, maker, gold, alice, bob}
use bancod.Contract.Offer.{Offer}
use bancod.Contract.Script.{Packet, packet_type, other_packet, find_banco_offer}
use bancod.Contract.Taker.{ConfigData}
use bancod.Contract.Taker.Fulfill.Consistent.{IsConsistent}
use bancod.Contract.Maker.{CreateOfferParams, CreateOfferResult, create_offer}
use bancod.Contract.Maker.Addressed.{MakerLaws}
use bancod.Contract.Maker.Accepted.{create_offer-IsConsistent}

abbrev params : CreateOfferParams TestAsset
params = record { want_amount = 200; want_asset = some gold; cancel_at = 0; exit_delay = none }

abbrev created : CreateOfferResult
created = elim (create_offer lib scripts env maker params) [
  | ok r ↦ r
  | err e ↦ record { offer_hex = []; packet = other_packet 0; swap_address = [] }
]

runs : create_offer lib scripts env maker params ≡ ok created
unfolding create_offer bancod.Contract.Maker.is_given introspector_key
    bancod.Contract.Maker.new_maker_pk_script bancod.Contract.Maker.address_offer
    bancod.Contract.Maker.swap_address_of bancod.Contract.Script.vtxo_script
    bancod.Contract.Script.fulfill_script bancod.Contract.Script.maker_witness_program
    bancod.Contract.Maker.unaddressed bancod.Contract.Maker.encode_offer
    bancod.Contract.Offer.serialize bancod.Contract.Offer.asset_section
    bancod.Contract.Script.to_packet
runs = refl

p2tr_wide : (k : TestKey) → length (p2tr k) ≡ 34
p2tr_wide alice = refl
p2tr_wide bob = refl

laws : MakerLaws lib scripts env maker
unfolding introspector_key
laws = record {
  p2tr_width = λ k s e. subst (λ t. length t ≡ 34) (some-injective _ _ e) (p2tr_wide k);
  address_script = λ a s e. e;
  even_key = λ k e. subst (λ j. IsXOnly lib j) (ok-injective _ _ e) refl;
}

create_offer-IsConsistent_example :
    (o : Offer TestAsset TestKey) × (cfg : ConfigData TestKey) × (find_banco_offer lib
        (λ t. some created.packet)
      ≡ ok (some o))
    × (o.want_amount ≡ params.want_amount)
    × (o.want_asset ≡ params.want_asset)
    × (env.get_config_data ≡ some cfg)
    × IsConsistent lib scripts env cfg.signer_pub_key o
create_offer-IsConsistent_example =
    create_offer-IsConsistent lib scripts env maker params created (λ t. some created.packet)
      lib_laws laws (omega arith) runs refl
