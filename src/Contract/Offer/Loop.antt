-- ===== src/Contract/Offer/Loop.antt =====
-- The loop of DeserializeOffer: fuel, and one round of it.
use bancod.Prelude.{
  false, ℕ, zero, suc, ◌/◌, ◌%◌, ◌^◌, ◌≡◌, refl, ◌∙◌, ap, fun_ext, ◌≤◌, ◌≢◌, Bool-cases, inl, inr,
  [], ◌∷◌, ◌++◌, ltb, length, take, drop, length-append, length-drop, take-append, drop-append,
  Bytes, IsU16, be_u16, Result, Result-cases, err, ◌>>=◌, arith,
}
use bancod.Contract.ArkLib.{ArkLib}
use bancod.Contract.Offer.{
  Parse, empty_parse, OfferError, out_of_fuel, encode_tlv, set_field, parse_loop, check_required,
  deserialize_offer,
}

module _ {A K : Type 0} (lib : ArkLib A K) where
  -- With fuel for every byte the fuel does not matter.
  pub parse_loop_fuel :
      (f g : ℕ) (bs : Bytes) (p : Parse A K)
      → length bs ≤ f
      → length bs ≤ g
      → parse_loop lib f bs p ≡ parse_loop lib g bs p
  unfolding parse_loop
  parse_loop_fuel zero zero [] p hf hg = refl
  parse_loop_fuel zero (suc g) [] p hf hg = refl
  parse_loop_fuel (suc f) zero [] p hf hg = refl
  parse_loop_fuel (suc f) (suc g) [] p hf hg = refl
  parse_loop_fuel zero g (b ∷ bs) p hf hg = absurd (omega arith)
  parse_loop_fuel (suc f) zero (b ∷ bs) p hf hg = absurd (omega arith)
  parse_loop_fuel (suc f) (suc g) (t ∷ []) p hf hg = refl
  parse_loop_fuel (suc f) (suc g) (t ∷ hi ∷ []) p hf hg = refl
  parse_loop_fuel (suc f) (suc g) (t ∷ hi ∷ lo ∷ rest) p hf hg =
      let n = be_u16 hi lo in
      simp (λ (q : Parse A K).
        parse_loop_fuel f g (drop n rest) q (omega (arith, length-drop n rest))
          (omega (arith, length-drop n rest)))

  -- The loop with enough fuel.
  abbrev pub parse_all : Bytes → Parse A K → Result OfferError (Parse A K)
  parse_all bs p = parse_loop lib (length bs) bs p

  -- One record in front: its switch case runs, and the loop goes on behind it.
  pub parse_all-encode_tlv :
      (t : ℕ) (v rest : Bytes) (p : Parse A K)
      → IsU16 (length v)
      → parse_all (encode_tlv t v ++ rest) p ≡ (set_field lib t v p >>= parse_all rest)
  unfolding parse_loop encode_tlv
  parse_all-encode_tlv t v rest p h =
      let width : be_u16 (length v % 2 ^ 16 / 256) (length v % 2 ^ 16 % 256) ≡ length v =
        omega arith in
      let fits : ltb (length (v ++ rest)) (length v) ≡ false =
        ground (arith, length-append v rest) in
      rw (width, fits, take-append v rest, drop-append v rest)
        (ap (λ (k : Parse A K → Result OfferError (Parse A K)). set_field lib t v p >>= k)
          (fun_ext (λ q.
            parse_loop_fuel (suc (suc (length (v ++ rest)))) (length rest) rest q
              (omega (arith, length-append v rest)) (omega arith))))

  set_field-ne-out_of_fuel :
      (t : ℕ) (v : Bytes) (p : Parse A K) → set_field lib t v p ≢ err out_of_fuel
  unfolding set_field
  set_field-ne-out_of_fuel t v p = ground arith

  -- The loop never runs out of fuel, so the model has no result that the source does not have.
  parse_loop-ne-out_of_fuel :
      (f : ℕ) (bs : Bytes) (p : Parse A K) → length bs ≤ f → parse_loop lib f bs p ≢ err out_of_fuel
  unfolding parse_loop
  parse_loop-ne-out_of_fuel zero [] p h = λ e. cc
  parse_loop-ne-out_of_fuel (suc f) [] p h = λ e. cc
  parse_loop-ne-out_of_fuel zero (b ∷ bs) p h = absurd (omega arith)
  parse_loop-ne-out_of_fuel (suc f) (t ∷ []) p h = λ e. cc
  parse_loop-ne-out_of_fuel (suc f) (t ∷ hi ∷ []) p h = λ e. cc
  parse_loop-ne-out_of_fuel (suc f) (t ∷ hi ∷ lo ∷ rest) p h =
      let n = be_u16 hi lo in
      elim (Bool-cases (ltb (length rest) n)) [
        | inl short ↦ rw short (λ e. cc)
        | inr long ↦ rw long (elim (Result-cases (set_field lib t (take n rest) p)) [
          | inl (q, e) ↦
              rw e (parse_loop-ne-out_of_fuel f (drop n rest) q (omega (arith, length-drop n rest)))
          | inr (x, e) ↦ rw e (λ k. set_field-ne-out_of_fuel t (take n rest) p (e ∙ k))
        ])
      ]

  -- Decoding ends on every input with an offer or with one of the errors of the source.
  pub deserialize_offer-ne-out_of_fuel : (bs : Bytes) → deserialize_offer lib bs ≢ err out_of_fuel
  unfolding deserialize_offer check_required
  deserialize_offer-ne-out_of_fuel bs = elim (Result-cases (parse_all bs empty_parse)) [
    | inl (q, e) ↦ rw e (ground arith)
    | inr (x, e) ↦
        rw e (λ k. parse_loop-ne-out_of_fuel (length bs) bs empty_parse (omega arith) (e ∙ cc))
  ]
