-- ===== src/Contract/Offer/RoundTrip.antt =====
-- DeserializeOffer reads back what Serialize wrote.
use mathlib.Core.List.{append-nil}
use bancod.Prelude.{
  true, false, Bool, ◌≡◌, refl, ◌∙◌, ap, [], ◌++◌, some, Bytes, IsU16, IsU32, IsU64, put_u64,
  be_value-put_u64, IfSome, ok, ◌>>=◌, arith, >>=-eq-ok, ok-injective, subst, length,
}
use bancod.Contract.ArkLib.{ArkLib, ArkLaws, IsXOnly}
use bancod.Contract.Offer.Loop.{parse_all}
use bancod.Contract.Offer.Sections.{
  parse_all-field, parse_all-amount_section, parse_all-asset_section, parse_all-key_section,
  parse_all-key_given, parse_all-exit_section,
}
use bancod.Contract.Offer.{
  parse_loop, Parse, Offer, empty_offer, empty_parse, RelativeLocktime, encode_tlv, set_field,
  amount_section, asset_section, key_section, exit_section, tlv_swap_pk_script, tlv_want_amount,
  tlv_ratio_num, tlv_ratio_den, tlv_cancel_delay, tlv_maker_pk_script, tlv_want_asset,
  tlv_offer_asset, tlv_maker_public_key, tlv_introspector_pubkey, want_asset_failed,
  offer_asset_failed, serialize, deserialize_offer, check_required,
}

-- The offers that the wire format can hold: scripts and numbers in range, keys in x-only form, and
-- the introspector's key present.
pub record IsEncodable {A K : Type 0} (lib : ArkLib A K) (o : Offer A K) : Type 0 where
  pub swap_width : IsU16 (length o.swap_pk_script)
  pub want_amount : IsU64 o.want_amount
  pub ratio_num : IsU64 o.ratio_num
  pub ratio_den : IsU64 o.ratio_den
  pub cancel_at : IsU64 o.cancel_at
  pub maker_width : length o.maker_pk_script ≡ 34
  pub maker_key : IfSome (IsXOnly lib) o.maker_public_key
  pub introspector_key : K
  pub introspector_given : o.introspector_pubkey ≡ some introspector_key
  pub introspector_form : IsXOnly lib introspector_key
  pub exit_delay : IfSome (λ (d : RelativeLocktime). IsU32 d.value) o.exit_delay

module _ {A K : Type 0} (lib : ArkLib A K) (laws : ArkLaws lib) where
  -- The state of the loop after swapPkScript, with the other three flags given.
  abbrev at : Bool → Bool → Bool → Offer A K → Parse A K
  at b c d o = record {
    offer = o;
    has_swap_pk_script = true;
    has_want_amount = b;
    has_maker_pk_script = c;
    has_introspector_pubkey = d;
  }

  -- The loop reads the parts in the order of Serialize, and ends with the offer and all the flags.
  parts_read :
      (o : Offer A K) (want offered : Bytes)
      → IsEncodable lib o
      → asset_section lib tlv_want_asset want_asset_failed o.want_asset ≡ ok want
      → asset_section lib tlv_offer_asset offer_asset_failed o.offer_asset ≡ ok offered
      → parse_all lib
          (encode_tlv tlv_swap_pk_script o.swap_pk_script
            ++ (encode_tlv tlv_want_amount (put_u64 o.want_amount)
                ++ (want
                    ++ (amount_section tlv_ratio_num o.ratio_num
                        ++ (amount_section tlv_ratio_den o.ratio_den
                            ++ (offered
                                ++ (amount_section tlv_cancel_delay o.cancel_at
                                    ++ (encode_tlv tlv_maker_pk_script o.maker_pk_script
                                        ++ (key_section lib tlv_maker_public_key o.maker_public_key
                                            ++ (key_section lib tlv_introspector_pubkey
                                                  o.introspector_pubkey
                                                ++ (exit_section o.exit_delay ++ [])))))))))))
          empty_parse
        ≡ ok (at true true true o)
  unfolding set_field parse_loop
  parts_read o want offered v he hf =
      let o1 : Offer A K = record empty_offer { swap_pk_script = o.swap_pk_script } in
      let o2 : Offer A K = record o1 { want_amount = o.want_amount } in
      let o3 : Offer A K = record o2 { want_asset = o.want_asset } in
      let o4 : Offer A K = record o3 { ratio_num = o.ratio_num } in
      let o5 : Offer A K = record o4 { ratio_den = o.ratio_den } in
      let o6 : Offer A K = record o5 { offer_asset = o.offer_asset } in
      let o7 : Offer A K = record o6 { cancel_at = o.cancel_at } in
      let o8 : Offer A K = record o7 { maker_pk_script = o.maker_pk_script } in
      let o9 : Offer A K = record o8 { maker_public_key = o.maker_public_key } in
      let o10 : Offer A K = record o9 { introspector_pubkey = o.introspector_pubkey } in
      parse_all-field lib tlv_swap_pk_script o.swap_pk_script _ empty_parse
        (at false false false o1) v.swap_width refl
      ∙ parse_all-field lib tlv_want_amount (put_u64 o.want_amount) _ (at false false false o1)
          (at true false false o2) (omega arith)
          (ap (λ n. ok (at true false false (record o1 { want_amount = n })))
            (be_value-put_u64 o.want_amount v.want_amount))
      ∙ parse_all-asset_section lib laws tlv_want_asset want_asset_failed o.want_asset want _
          (at true false false o2) (λ x. at true false false (record o2 { want_asset = x })) he
          (λ w a h. rw h) refl
      ∙ parse_all-amount_section lib tlv_ratio_num o.ratio_num _ (at true false false o3)
          (λ x. at true false false (record o3 { ratio_num = x })) v.ratio_num (λ w h. rw h) refl
      ∙ parse_all-amount_section lib tlv_ratio_den o.ratio_den _ (at true false false o4)
          (λ x. at true false false (record o4 { ratio_den = x })) v.ratio_den (λ w h. rw h) refl
      ∙ parse_all-asset_section lib laws tlv_offer_asset offer_asset_failed o.offer_asset offered _
          (at true false false o5) (λ x. at true false false (record o5 { offer_asset = x })) hf
          (λ w a h. rw h) refl
      ∙ parse_all-amount_section lib tlv_cancel_delay o.cancel_at _ (at true false false o6)
          (λ x. at true false false (record o6 { cancel_at = x })) v.cancel_at (λ w h. rw h) refl
      ∙ parse_all-field lib tlv_maker_pk_script o.maker_pk_script _ (at true false false o7)
          (at true true false o8) (omega (arith, v.maker_width)) refl
      ∙ parse_all-key_section lib laws tlv_maker_public_key o.maker_public_key _
          (at true true false o8) (λ x. at true true false (record o8 { maker_public_key = x }))
          v.maker_key (λ w k l h. rw h) refl
      ∙ parse_all-key_given lib laws tlv_introspector_pubkey o.introspector_pubkey
          v.introspector_key _ (at true true false o9)
          (λ x. at true true true (record o9 { introspector_pubkey = x })) v.introspector_given
          v.introspector_form (λ w l h. ground arith)
      ∙ parse_all-exit_section lib o.exit_delay [] (at true true true o10)
          (λ x. at true true true (record o10 { exit_delay = x })) v.exit_delay (λ w h. rw h) refl

  -- Decoding the encoding of an offer gives the offer, with every field: for every offer that the
  -- format can hold, whose encoding does not fail, and libraries that keep the laws of asset ids
  -- and keys.
  pub deserialize_offer-serialize :
      (o : Offer A K) (bs : Bytes)
      → IsEncodable lib o
      → serialize lib o ≡ ok bs
      → deserialize_offer lib bs ≡ ok o
  unfolding deserialize_offer serialize check_required
  deserialize_offer-serialize o bs v e =
      let (want, he, e') =
        >>=-eq-ok (asset_section lib tlv_want_asset want_asset_failed o.want_asset) _ e in
      let (offered, hf, e'') =
        >>=-eq-ok (asset_section lib tlv_offer_asset offer_asset_failed o.offer_asset) _ e' in
      subst (λ w. (parse_all lib w empty_parse >>= check_required lib) ≡ ok o)
        (ok-injective _ _ e'')
        (rw (rw append-nil at (parts_read o want offered v he hf)) (ground (arith, v.maker_width)))
