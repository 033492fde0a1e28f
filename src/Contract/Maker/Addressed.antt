-- ===== src/Contract/Maker/Addressed.antt =====
-- The steps of CreateOffer: the maker's script, the address of the contract, and the packet.
use bancod.Prelude.{
  ℕ, ◌≡◌, refl, ◌∙◌, ap, List, some, Bytes, IsU64, length, Result, ok, err, or_fail, guard,
  >>=-eq-ok, or_fail-eq-ok, ok-injective, arith, not, ltb,
}
use bancod.Contract.ArkLib.{ArkLib, IsXOnly}
use bancod.Contract.Offer.{Offer, serialize}
use bancod.Contract.Offer.RoundTrip.{IsEncodable}
use bancod.Contract.Script.{ScriptLib, Closure, vtxo_script, to_packet}
use bancod.Contract.Script.Closures.{vtxo_script-swap_pk_script}
use bancod.Contract.Taker.{TakerEnv}
use bancod.Contract.Taker.Fulfill.Consistent.{IsConsistent}
use bancod.Contract.Maker.{
  MakerEnv, MakerError, Address, CreateOfferParams, CreateOfferResult, wrapped, introspector_key,
  new_maker_pk_script, swap_address_of, encode_offer, address_offer, unaddressed,
}

module _ {A K R X : Type 0} (lib : ArkLib A K) (scripts : ScriptLib K) (env : TakerEnv A K R X)
    (maker : MakerEnv K) where
  -- What the libraries' documentation says of scripts and addresses, and that the introspector's
  -- key has an even y.
  pub record MakerLaws : Type 0 where
    -- a P2TR script is OP_1 and a push of 32 bytes
    pub p2tr_width : (k : K) (s : Bytes) → env.p2tr_script k ≡ some s → length s ≡ 34
    -- GetPkScript is the P2TR script of the VTXO's tap key
    pub address_script :
        (a : Address K) (s : Bytes)
        → maker.address_pk_script a ≡ some s
        → env.p2tr_script a.vtxo_tap_key ≡ some s
    pub even_key : (k : K) → introspector_key lib scripts env maker ≡ ok k → IsXOnly lib k

  wrapped-eq-ok :
      {E B : Type 0} (r : Result E B) (x : MakerError) (b : B) → wrapped r x ≡ ok b → r ≡ ok b
  wrapped-eq-ok (ok c) x b e = cc
  wrapped-eq-ok (err y) x b e = absurd cc

  pub guard_zero : (n : ℕ) (x : MakerError) {u : Unit {0}} → guard (not (ltb 0 n)) x ≡ ok u → n ≡ 0
  guard_zero n x e = ground arith

  encode_offer-packet :
      (address : Bytes) (o : Offer A K) (r : CreateOfferResult)
      → encode_offer lib scripts env maker address o ≡ ok r
      → (to_packet lib o ≡ ok r.packet) × (address ≡ r.swap_address)
  unfolding encode_offer
  encode_offer-packet address o r e =
      let (encoded, e₁, f₁) = >>=-eq-ok (wrapped (serialize lib o) _) _ e in
      let (packet, e₂, f₂) = >>=-eq-ok (wrapped (to_packet lib o) _) _ f₁ in
      let same = ok-injective _ _ f₂ in
      (
        wrapped-eq-ok _ _ packet e₂ ∙ ap (λ (x : CreateOfferResult). ok x.packet) same,
        ap (λ (x : CreateOfferResult). x.swap_address) same,
      )

  swap_address_of-key :
      (server : K) (network : Bytes) (o : Offer A K) (a : Address K)
      → swap_address_of lib scripts env maker server network o ≡ ok a
      → (closures : List (Closure K)) × (vtxo_script lib scripts server o ≡ ok closures)
        × (env.tap_key closures ≡ some a.vtxo_tap_key)
  unfolding swap_address_of
  swap_address_of-key server network o a e =
      let (closures, e₁, f₁) = >>=-eq-ok (wrapped (vtxo_script lib scripts server o) _) _ e in
      let (key, e₂, f₂) = >>=-eq-ok (or_fail (env.tap_key closures) _) _ f₁ in
      (
        closures,
        wrapped-eq-ok _ _ closures e₁,
        or_fail-eq-ok _ _ key e₂
            ∙ ap (λ (x : Address K). some x.vtxo_tap_key) (ok-injective _ _ f₂),
      )

  -- From the offer without its swap script on.
  pub address_offer-accepted :
      (server : K) (network : Bytes) (o : Offer A K) (r : CreateOfferResult)
      → MakerLaws
      → address_offer lib scripts env maker server network o ≡ ok r
      → (s : Bytes) × (swap : Address K) × (to_packet lib (record o { swap_pk_script = s })
          ≡ ok r.packet)
        × (maker.encode_address swap ≡ some r.swap_address)
        × (maker.address_pk_script swap ≡ some s)
        × (length s ≡ 34)
        × IsConsistent lib scripts env server (record o { swap_pk_script = s })
  unfolding address_offer
  address_offer-accepted server network o r laws e =
      let (swap, e₁, f₁) = >>=-eq-ok (swap_address_of lib scripts env maker server network o) _ e in
      let (address, e₂, f₂) = >>=-eq-ok (or_fail (maker.encode_address swap) _) _ f₁ in
      let (s, e₃, f₃) = >>=-eq-ok (or_fail (maker.address_pk_script swap) _) _ f₂ in
      let (closures, g₁, g₂) = swap_address_of-key server network o swap e₁ in
      let paid = or_fail-eq-ok _ _ s e₃ in
      let script = laws.address_script swap s paid in
      let (packed, named) = encode_offer-packet address _ r f₃ in
      (
        s,
        swap,
        packed,
        or_fail-eq-ok _ _ address e₂ ∙ ap some named,
        paid,
        laws.p2tr_width swap.vtxo_tap_key s script,
        record {
          closures = closures;
          key = swap.vtxo_tap_key;
          rebuilt = vtxo_script-swap_pk_script lib scripts server o s ∙ g₁;
          tap_key = g₂;
          pk_script = script;
        },
      )

  pub new_maker_pk_script-width :
      (s : Bytes) → MakerLaws → new_maker_pk_script lib scripts env maker ≡ ok s → length s ≡ 34
  unfolding new_maker_pk_script
  new_maker_pk_script-width s laws e =
      let (address, e₁, f₁) = >>=-eq-ok (or_fail env.new_offchain_address _) _ e in
      let (key, e₂, f₂) = >>=-eq-ok (or_fail (env.decode_address address) _) _ f₁ in
      laws.p2tr_width key s (or_fail-eq-ok _ _ s f₂)

  pub unaddressed-IsEncodable :
      (params : CreateOfferParams A) (script s : Bytes) (key : K)
      → IsU64 params.want_amount
      → params.cancel_at ≡ 0
      → length script ≡ 34
      → IsXOnly lib key
      → length s ≡ 34
      → IsEncodable lib (record (unaddressed params script key) { swap_pk_script = s })
  unfolding unaddressed
  unaddressed-IsEncodable params script s key small never wide even width = record {
    swap_width = omega arith;
    want_amount = small;
    ratio_num = omega arith;
    ratio_den = omega arith;
    cancel_at = omega arith;
    maker_width = wide;
    maker_key = tt;
    introspector_key = key;
    introspector_given = refl;
    introspector_form = even;
    exit_delay = tt;
  }
