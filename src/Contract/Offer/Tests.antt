-- ===== src/Contract/Offer/Tests.antt =====
-- The wire format on concrete offers.
use bancod.Prelude.{
  ◌≡◌, ◌≢◌, refl, [], ◌∷◌, ◌++◌, All, Bool, true, ltb, ◌&&◌, IsByte, Bytes, ok, err, put_u64, arith,
}
use bancod.Examples.{lib, lib_laws, gold_offer, alice}
use bancod.Contract.Offer.{
  out_of_fuel, asset_section, amount_section, key_section, exit_section, serialize,
  deserialize_offer, encode_tlv, tlv_want_amount,
}
use bancod.Contract.Offer.RoundTrip.{IsEncodable, deserialize_offer-serialize}
use bancod.Contract.Offer.Checked.{deserialize_offer-serialize-deserialize_offer}
use bancod.Contract.Offer.Loop.{deserialize_offer-ne-out_of_fuel}
use bancod.Contract.Offer.Tail.{deserialize_offer-append_want_amount}

-- The encoding of the offer.
abbrev offer_bytes : Bytes
offer_bytes = elim (serialize lib gold_offer) [ ok bs ↦ bs | err e ↦ [] ]

gold_offer-IsEncodable : IsEncodable lib gold_offer
gold_offer-IsEncodable = record {
  swap_width = omega arith;
  want_amount = omega arith;
  ratio_num = omega arith;
  ratio_den = omega arith;
  cancel_at = omega arith;
  maker_width = refl;
  maker_key = tt;
  introspector_key = alice;
  introspector_given = refl;
  introspector_form = refl;
  exit_delay = tt;
}

serialized : serialize lib gold_offer ≡ ok offer_bytes
unfolding serialize asset_section encode_tlv amount_section key_section exit_section
serialized = refl

deserialized : deserialize_offer lib offer_bytes ≡ ok gold_offer
deserialized =
    deserialize_offer-serialize lib lib_laws gold_offer offer_bytes gold_offer-IsEncodable
      serialized

deserialize_offer-serialize_example : deserialize_offer lib offer_bytes ≡ ok gold_offer
deserialize_offer-serialize_example =
    deserialize_offer-serialize lib lib_laws gold_offer offer_bytes gold_offer-IsEncodable
      serialized

-- A test for bytes.
abbrev are_bytes : Bytes → Bool
are_bytes [] = true
are_bytes (c ∷ s) = ltb c 256 && are_bytes s

are_bytes→All : (s : Bytes) → are_bytes s ≡ true → All IsByte s
are_bytes→All [] h = tt
are_bytes→All (c ∷ s) h = ground (arith, are_bytes→All s)

offer_bytes-IsByte : All IsByte offer_bytes
unfolding serialize asset_section encode_tlv amount_section key_section exit_section
offer_bytes-IsByte = are_bytes→All offer_bytes refl

deserialize_offer-serialize-deserialize_offer_example :
    deserialize_offer lib offer_bytes ≡ ok gold_offer
deserialize_offer-serialize-deserialize_offer_example =
    deserialize_offer-serialize-deserialize_offer lib lib_laws offer_bytes offer_bytes gold_offer
      offer_bytes-IsByte deserialized serialized

deserialize_offer-ne-out_of_fuel_example : deserialize_offer lib (1 ∷ 0 ∷ 9 ∷ []) ≢ err out_of_fuel
deserialize_offer-ne-out_of_fuel_example = deserialize_offer-ne-out_of_fuel lib (1 ∷ 0 ∷ 9 ∷ [])

deserialize_offer-append_want_amount_example :
    deserialize_offer lib (offer_bytes ++ encode_tlv tlv_want_amount (put_u64 9))
    ≡ ok (record gold_offer { want_amount = 9 })
deserialize_offer-append_want_amount_example =
    deserialize_offer-append_want_amount lib offer_bytes gold_offer 9 deserialized (omega arith)
