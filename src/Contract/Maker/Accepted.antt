-- ===== src/Contract/Maker/Accepted.antt =====
-- The offers that a maker creates, as a taker reads them.
use bancod.Prelude.{
  ℕ, ◌≡◌, refl, Option, some, IsU64, ok, or_fail, guard, >>=-eq-ok, or_fail-eq-ok, not, ltb,
}
use bancod.Contract.ArkLib.{ArkLib, ArkLaws}
use bancod.Contract.Offer.{Offer}
use bancod.Contract.Offer.RoundTrip.{IsEncodable}
use bancod.Contract.Script.{ScriptLib, Packet, packet_type, to_packet, find_banco_offer}
use bancod.Contract.Script.Commits.{find_banco_offer-to_packet}
use bancod.Contract.Taker.{TakerEnv, ConfigData}
use bancod.Contract.Taker.Fulfill.Consistent.{IsConsistent}
use bancod.Contract.Maker.{
  MakerEnv, Address, CreateOfferParams, CreateOfferResult, introspector_key, new_maker_pk_script,
  unaddressed, create_offer, is_given,
}
use bancod.Contract.Maker.Addressed.{
  MakerLaws, address_offer-accepted, new_maker_pk_script-width, unaddressed-IsEncodable, guard_zero,
}

module _ {A K R X : Type 0} (lib : ArkLib A K) (scripts : ScriptLib K) (env : TakerEnv A K R X)
    (maker : MakerEnv K) where
  -- The offer behind a result of CreateOffer, with the address that the result names.
  pub record IsCreated (params : CreateOfferParams A) (r : CreateOfferResult) : Type 0 where
    pub offer : Offer A K
    pub cfg : ConfigData K
    pub swap : Address K
    pub packed : to_packet lib offer ≡ ok r.packet
    pub encodable : IsEncodable lib offer
    pub amount_asked : offer.want_amount ≡ params.want_amount
    pub asset_asked : offer.want_asset ≡ params.want_asset
    pub addressed : maker.encode_address swap ≡ some r.swap_address
    pub swap_script : maker.address_pk_script swap ≡ some offer.swap_pk_script
    pub configured : env.get_config_data ≡ some cfg
    pub consistent : IsConsistent lib scripts env cfg.signer_pub_key offer

  pub create_offer-IsCreated :
      (params : CreateOfferParams A) (r : CreateOfferResult)
      → MakerLaws lib scripts env maker
      → IsU64 params.want_amount
      → create_offer lib scripts env maker params ≡ ok r
      → IsCreated params r
  unfolding create_offer unaddressed
  create_offer-IsCreated params r laws small e =
      let (t₁, g₁, f₁) = >>=-eq-ok (guard (not (ltb 0 params.cancel_at)) _) _ e in
      let (t₂, g₂, f₂) = >>=-eq-ok (guard (not (is_given params.exit_delay)) _) _ f₁ in
      let (key, g₃, f₃) = >>=-eq-ok (introspector_key lib scripts env maker) _ f₂ in
      let (script, g₄, f₄) = >>=-eq-ok (new_maker_pk_script lib scripts env maker) _ f₃ in
      let (cfg, g₅, f₅) = >>=-eq-ok (or_fail env.get_config_data _) _ f₄ in
      let (s, swap, packed, addressed, paid, width, consistent) =
        address_offer-accepted lib scripts env maker cfg.signer_pub_key cfg.network _ r laws f₅ in
      record {
        offer = record (unaddressed params script key) { swap_pk_script = s };
        cfg = cfg;
        swap = swap;
        packed = packed;
        encodable =
            unaddressed-IsEncodable lib scripts env maker params script s key small
              (guard_zero lib scripts env maker _ _ g₁)
              (new_maker_pk_script-width lib scripts env maker script laws g₄)
              (laws.even_key key g₃) width;
        amount_asked = refl;
        asset_asked = refl;
        addressed = addressed;
        swap_script = paid;
        configured = or_fail-eq-ok _ _ cfg g₅;
        consistent = consistent;
      }

  -- The offer behind a result of CreateOffer: a taker that finds the packet of the result in an
  -- extension reads an offer with the amount and the asset that were asked for, whose swap script
  -- is that of its contract with the server of the maker's wallet. That is for a uint64 amount,
  -- libraries that keep their laws, and an introspector's key with an even y, since the offer
  -- keeps the x coordinate alone.
  pub create_offer-IsConsistent :
      (params : CreateOfferParams A) (r : CreateOfferResult)
      (get_packet_by_type : ℕ → Option Packet)
      → ArkLaws lib
      → MakerLaws lib scripts env maker
      → IsU64 params.want_amount
      → create_offer lib scripts env maker params ≡ ok r
      → get_packet_by_type packet_type ≡ some r.packet
      → (o : Offer A K) × (cfg : ConfigData K) × (find_banco_offer lib get_packet_by_type
          ≡ ok (some o))
        × (o.want_amount ≡ params.want_amount)
        × (o.want_asset ≡ params.want_asset)
        × (env.get_config_data ≡ some cfg)
        × IsConsistent lib scripts env cfg.signer_pub_key o
  create_offer-IsConsistent params r get ark laws small e found =
      let c = create_offer-IsCreated params r laws small e in
      (
        c.offer,
        c.cfg,
        find_banco_offer-to_packet lib ark c.offer r.packet get c.encodable c.packed found,
        c.amount_asked,
        c.asset_asked,
        c.configured,
        c.consistent,
      )
