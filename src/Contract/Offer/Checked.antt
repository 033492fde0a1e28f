-- ===== src/Contract/Offer/Checked.antt =====
-- What DeserializeOffer guarantees of an offer that it accepts.
use bancod.Prelude.{
  ◌≢◌, true, ℕ, zero, suc, ◌≡◌, inl, inr, [], ◌∷◌, length, none, Bytes, IsByte, All, All-take,
  All-drop, IsU16, IsU32, IsU64, be_u16, take, drop, length-take, be_value-IsU64, IfSome, ok, arith,
  >>=-eq-ok, ok-injective, subst, Bool-cases, Option-cases, ltb,
}
use bancod.Contract.ArkLib.{ArkLib, ArkLaws, IsXOnly}
use bancod.Contract.Offer.Loop.{parse_all}
use bancod.Contract.Offer.RoundTrip.{IsEncodable, deserialize_offer-serialize}
use bancod.Contract.Offer.{
  parse_loop, Parse, Offer, empty_parse, RelativeLocktime, exit_of_bytes, set_field, serialize,
  deserialize_offer, check_required,
}

-- The invariant of the loop.
record IsDecoded {A K : Type 0} (lib : ArkLib A K) (p : Parse A K) : Type 0 where
  swap_width : IsU16 (length p.offer.swap_pk_script)
  want_amount : IsU64 p.offer.want_amount
  ratio_num : IsU64 p.offer.ratio_num
  ratio_den : IsU64 p.offer.ratio_den
  cancel_at : IsU64 p.offer.cancel_at
  maker_key : IfSome (IsXOnly lib) p.offer.maker_public_key
  introspector_given : p.has_introspector_pubkey ≡ true → p.offer.introspector_pubkey ≢ none
  introspector_form : IfSome (IsXOnly lib) p.offer.introspector_pubkey
  exit_delay : IfSome (λ (d : RelativeLocktime). IsU32 d.value) p.offer.exit_delay

exit_of_bytes-IsU32 : (v : Bytes) → IsU32 (exit_of_bytes v).value
exit_of_bytes-IsU32 [] = omega arith
exit_of_bytes-IsU32 (b ∷ bs) = omega arith

module _ {A K : Type 0} (lib : ArkLib A K) (laws : ArkLaws lib) where
  set_field-IsDecoded :
      (t : ℕ) (v : Bytes) (p q : Parse A K)
      → All IsByte v
      → IsU16 (length v)
      → IsDecoded lib p
      → set_field lib t v p ≡ ok q
      → IsDecoded lib q
  unfolding set_field
  set_field-IsDecoded t v p q bytes wide d e = elim (Option-cases (lib.parse_pub_key v)) [
    | inl bad ↦ ground (arith, be_value-IsU64 v bytes, exit_of_bytes-IsU32 v)
    | inr (k, good) ↦
        let even = laws.parsed_key v k good in
        ground (arith, be_value-IsU64 v bytes, exit_of_bytes-IsU32 v)
  ]

  parse_loop-IsDecoded :
      (f : ℕ) (bs : Bytes) (p q : Parse A K)
      → All IsByte bs
      → IsDecoded lib p
      → parse_loop lib f bs p ≡ ok q
      → IsDecoded lib q
  unfolding parse_loop
  parse_loop-IsDecoded zero [] p q bytes d e = subst (IsDecoded lib) (ok-injective _ _ e) d
  parse_loop-IsDecoded (suc f) [] p q bytes d e = subst (IsDecoded lib) (ok-injective _ _ e) d
  parse_loop-IsDecoded zero (b ∷ bs) p q bytes d e = cc
  parse_loop-IsDecoded (suc f) (t ∷ []) p q bytes d e = cc
  parse_loop-IsDecoded (suc f) (t ∷ hi ∷ []) p q bytes d e = cc
  parse_loop-IsDecoded (suc f) (t ∷ hi ∷ lo ∷ rest) p q (bt, (bh, (bl, bytes))) d e =
      let n = be_u16 hi lo in
      elim (Bool-cases (ltb (length rest) n)) [
        | inl short ↦ absurd (ground arith)
        | inr long ↦
            let (r, set, next) = >>=-eq-ok (set_field lib t (take n rest) p) _ (rw long at e) in
            let width = length-take n rest (ground arith) in
            parse_loop-IsDecoded f (drop n rest) r q (All-drop IsByte n rest bytes)
              (set_field-IsDecoded t (take n rest) p r (All-take IsByte n rest bytes)
                (omega (arith, width)) d set)
              next
      ]

  empty-IsDecoded : IsDecoded lib empty_parse
  empty-IsDecoded = record {
    swap_width = omega arith;
    want_amount = omega arith;
    ratio_num = omega arith;
    ratio_den = omega arith;
    cancel_at = omega arith;
    maker_key = tt;
    introspector_given = λ e. cc;
    introspector_form = tt;
    exit_delay = tt;
  }

  IsDecoded-IsEncodable :
      (p : Parse A K) (o : Offer A K)
      → IsDecoded lib p
      → check_required lib p ≡ ok o
      → IsEncodable lib o
  unfolding check_required
  IsDecoded-IsEncodable p o d e = elim (Option-cases p.offer.introspector_pubkey) [
    | inl nil ↦ absurd (ground arith)
    | inr (k, given) ↦
        let same : p.offer ≡ o = ground arith in
        let width : length p.offer.maker_pk_script ≡ 34 = ground arith in
        subst (IsEncodable lib) same (record {
          swap_width = d.swap_width;
          want_amount = d.want_amount;
          ratio_num = d.ratio_num;
          ratio_den = d.ratio_den;
          cancel_at = d.cancel_at;
          maker_width = width;
          maker_key = d.maker_key;
          introspector_key = k;
          introspector_given = given;
          introspector_form = rw given at d.introspector_form;
          exit_delay = d.exit_delay;
        })
  ]

  pub deserialize_offer-IsEncodable :
      (bs : Bytes) (o : Offer A K)
      → All IsByte bs
      → deserialize_offer lib bs ≡ ok o
      → IsEncodable lib o
  unfolding deserialize_offer check_required
  deserialize_offer-IsEncodable bs o bytes e =
      let (q, looped, checked) = >>=-eq-ok (parse_all lib bs empty_parse) (check_required lib) e in
      IsDecoded-IsEncodable q o
        (parse_loop-IsDecoded (length bs) bs empty_parse q bytes empty-IsDecoded looped) checked

  -- Re-encoding an offer that was decoded from bytes gives, where it does not fail, bytes that
  -- decode to the same offer, whatever the order and the repetitions of the fields in the input.
  -- The libraries keep their laws.
  pub deserialize_offer-serialize-deserialize_offer :
      (bs bs' : Bytes) (o : Offer A K)
      → All IsByte bs
      → deserialize_offer lib bs ≡ ok o
      → serialize lib o ≡ ok bs'
      → deserialize_offer lib bs' ≡ ok o
  deserialize_offer-serialize-deserialize_offer bs bs' o bytes e s =
      deserialize_offer-serialize lib laws o bs' (deserialize_offer-IsEncodable bs o bytes e) s
