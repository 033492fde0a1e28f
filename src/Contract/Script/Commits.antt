-- ===== src/Contract/Script/Commits.antt =====
-- What the fulfill script fixes, and the round trip of an offer through a packet.
use bancod.Prelude.{ℕ, ◌≡◌, Option, none, some, Bytes, ok, >>=-eq-ok, ok-injective}
use bancod.Contract.ArkLib.{ArkLib, ArkLaws}
use bancod.Contract.Offer.{Offer, serialize}
use bancod.Contract.Offer.RoundTrip.{IsEncodable, deserialize_offer-serialize}
use bancod.Contract.Script.{Packet, packet_type, to_packet, find_banco_offer, decode_packet}

module _ {A K : Type 0} (lib : ArkLib A K) where
  -- The txid that the script looks up, where an asset is wanted.
  abbrev pub wanted_txid : Offer A K → Option Bytes
  wanted_txid o = elim o.want_asset [ none ↦ none | some a ↦ some (lib.asset_txid a) ]

  -- An encodable offer wrapped as a packet is found, with every field, in every extension that
  -- returns that packet for the offers' type. The libraries keep their laws.
  pub find_banco_offer-to_packet :
      ArkLaws lib
      → (o : Offer A K) (p : Packet) (get_packet_by_type : ℕ → Option Packet) → IsEncodable lib o
      → to_packet lib o ≡ ok p
      → get_packet_by_type packet_type ≡ some p
      → find_banco_offer lib get_packet_by_type ≡ ok (some o)
  unfolding find_banco_offer decode_packet to_packet
  find_banco_offer-to_packet laws o p get v made found =
      let (bytes, done, whole) = >>=-eq-ok (serialize lib o) _ made in
      rw (found, ← ok-injective _ _ whole, deserialize_offer-serialize lib laws o bytes v done)
