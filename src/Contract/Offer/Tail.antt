-- ===== src/Contract/Offer/Tail.antt =====
-- DeserializeOffer on an accepted input with more behind it.
use mathlib.Core.List.{append-nil}
use bancod.Prelude.{
  true, false, ℕ, zero, suc, ◌≡◌, refl, ◌∙◌, ap, ◌<◌, ◌≤◌, inl, inr, [], ◌∷◌, ◌++◌, length,
  length-append, length-drop, Bytes, be_u16, take, drop, ok, put_u64, be_value-put_u64, IsU64, err,
  ◌>>=◌, arith, >>=-eq-ok, ok-injective, Bool-cases, ltb,
}
use bancod.Contract.ArkLib.{ArkLib}
use bancod.Contract.Offer.Loop.{parse_all, parse_all-encode_tlv, parse_loop_fuel}
use bancod.Contract.Offer.{
  parse_loop, Parse, Offer, truncated_header, empty_parse, encode_tlv, set_field, deserialize_offer,
  check_required, tlv_want_amount,
}

take-append_le : (n : ℕ) (xs ys : Bytes) → n ≤ length xs → take n (xs ++ ys) ≡ take n xs
take-append_le zero xs ys h = refl
take-append_le (suc n) [] ys h = elim h [ ]
take-append_le (suc n) (x ∷ xs) ys h = ap (λ t. x ∷ t) (take-append_le n xs ys (omega arith))

drop-append_le : (n : ℕ) (xs ys : Bytes) → n ≤ length xs → drop n (xs ++ ys) ≡ drop n xs ++ ys
drop-append_le zero xs ys h = refl
drop-append_le (suc n) [] ys h = elim h [ ]
drop-append_le (suc n) (x ∷ xs) ys h = drop-append_le n xs ys (omega arith)

module _ {A K : Type 0} (lib : ArkLib A K) where
  -- After an input that is read to its end the loop goes on with what follows.
  parse_all-append :
      (f : ℕ) (bs more : Bytes) (p q : Parse A K)
      → length bs ≤ f
      → parse_loop lib f bs p ≡ ok q
      → parse_all lib (bs ++ more) p ≡ parse_all lib more q
  unfolding parse_loop
  parse_all-append zero [] more p q h e = ap (parse_all lib more) (ok-injective _ _ e)
  parse_all-append (suc f) [] more p q h e = ap (parse_all lib more) (ok-injective _ _ e)
  parse_all-append zero (b ∷ bs) more p q h e = cc
  parse_all-append (suc f) (t ∷ []) more p q h e = cc
  parse_all-append (suc f) (t ∷ hi ∷ []) more p q h e = cc
  parse_all-append (suc f) (t ∷ hi ∷ lo ∷ rest) more p q h e =
      let n = be_u16 hi lo in
      elim (Bool-cases (ltb (length rest) n)) [
        | inl short ↦ absurd (ground arith)
        | inr long ↦
            let (r, set, next) = >>=-eq-ok (set_field lib t (take n rest) p) _ (rw long at e) in
            let fits : n ≤ length rest = ground arith in
            let long' : ltb (length (rest ++ more)) n ≡ false =
              ground (arith, length-append rest more) in
            rw (long', take-append_le n rest more fits, drop-append_le n rest more fits, set)
              (parse_loop_fuel lib (suc (suc (length (rest ++ more))))
                  (length (drop n rest ++ more)) (drop n rest ++ more) r
                  (omega (
                    arith,
                    length-append rest more,
                    length-append (drop n rest) more,
                    length-drop n rest,
                  ))
                  (omega arith)
                ∙ parse_all-append f (drop n rest) more r q (omega (arith, length-drop n rest))
                    next)
      ]

  -- What follows an accepted input decides: one record more is taken by the switch, and the tests
  -- after the loop are made again.
  deserialize_offer-append :
      (bs more : Bytes) (o : Offer A K)
      → deserialize_offer lib bs ≡ ok o
      → (q : Parse A K) × (q.offer ≡ o)
        × (check_required lib q ≡ ok o)
        × (deserialize_offer lib (bs ++ more) ≡ (parse_all lib more q >>= check_required lib))
  unfolding deserialize_offer
  deserialize_offer-append bs more o e =
      let (q, looped, checked) = >>=-eq-ok (parse_all lib bs empty_parse) (check_required lib) e in
      (
        q,
        unfold check_required in ground arith,
        checked,
        rw (parse_all-append (length bs) bs more empty_parse q (omega arith) looped),
      )

  -- An accepted input with one or two bytes behind it is refused as cut short.
  pub deserialize_offer-append_short :
      (bs more : Bytes) (o : Offer A K)
      → deserialize_offer lib bs ≡ ok o
      → 0 < length more
      → length more < 3
      → deserialize_offer lib (bs ++ more) ≡ err truncated_header
  unfolding parse_loop
  deserialize_offer-append_short bs [] o e h k = elim h [ ]
  deserialize_offer-append_short bs (a ∷ []) o e h k = (deserialize_offer-append bs (a ∷ []) o e).3
  deserialize_offer-append_short bs (a ∷ b ∷ []) o e h k =
      (deserialize_offer-append bs (a ∷ b ∷ []) o e).3
  deserialize_offer-append_short bs (a ∷ b ∷ c ∷ more) o e h k = absurd (omega arith)

  check_required-want_amount :
      (q : Parse A K) (o : Offer A K) (n : ℕ)
      → check_required lib q ≡ ok o
      → check_required lib
          (record q { offer = record q.offer { want_amount = n }; has_want_amount = true })
        ≡ ok (record o { want_amount = n })
  unfolding check_required
  check_required-want_amount q o n e = ground arith

  -- An accepted input with a second amount behind it, of 64 bits, is accepted: the last amount is
  -- the one that counts, and the other fields stay.
  pub deserialize_offer-append_want_amount :
      (bs : Bytes) (o : Offer A K) (n : ℕ)
      → deserialize_offer lib bs ≡ ok o
      → IsU64 n
      → deserialize_offer lib (bs ++ encode_tlv tlv_want_amount (put_u64 n))
        ≡ ok (record o { want_amount = n })
  unfolding set_field parse_loop
  deserialize_offer-append_want_amount bs o n e h =
      let (q, same, checked, whole) =
        deserialize_offer-append bs (encode_tlv tlv_want_amount (put_u64 n)) o e in
      let one = parse_all-encode_tlv lib tlv_want_amount (put_u64 n) [] q (omega arith) in
      let last : parse_all lib (encode_tlv tlv_want_amount (put_u64 n)) q
          ≡ ok (record q { offer = record q.offer { want_amount = n }; has_want_amount = true }) =
        rw append-nil at one ∙ rw (be_value-put_u64 n h) in
      rw (whole, last) (check_required-want_amount q o n checked)
