-- ===== src/Contract/Offer/Sections.antt =====
-- Each part that Serialize writes, as the loop of DeserializeOffer reads it.
use bancod.Prelude.{
  ℕ, ◌≡◌, refl, sym, ◌∙◌, ap, Bool-cases, inl, inr, [], ◌∷◌, ◌++◌, ltb, length, Option, none, some,
  Bytes, IsU16, IsU32, IsU64, be_value, put_u64, be_value-put_u64, IfSome, ok, arith, Option-cases,
}
use bancod.Contract.ArkLib.{ArkLib, ArkLaws, IsXOnly}
use bancod.Contract.Offer.Loop.{parse_all, parse_all-encode_tlv}
use bancod.Contract.Offer.{
  Parse, SerializeError, RelativeLocktime, LocktimeType, block, second, exit_bytes, exit_of_bytes,
  type_byte, encode_tlv, set_field, amount_section, asset_section, key_section, exit_section,
  tlv_exit_timelock,
}

exit_parts :
    (k : LocktimeType) (n : ℕ)
    → IsU32 n
    → exit_of_bytes (type_byte k ∷ put_u64 n) ≡ record { type = k; value = n }
exit_parts block n h =
    ap (λ m. record { type = block; value = m })
      (rw (be_value-put_u64 n (omega arith)) (omega arith))
exit_parts second n h =
    ap (λ m. record { type = second; value = m })
      (rw (be_value-put_u64 n (omega arith)) (omega arith))

module _ {A K : Type 0} (lib : ArkLib A K) where
  -- A record whose switch case succeeds is read.
  pub parse_all-field :
      (t : ℕ) (v rest : Bytes) (p q : Parse A K)
      → IsU16 (length v)
      → set_field lib t v p ≡ ok q
      → parse_all lib (encode_tlv t v ++ rest) p ≡ parse_all lib rest q
  parse_all-field t v rest p q h e = parse_all-encode_tlv lib t v rest p h ∙ rw e

  -- A number that is left out at 0 is read as itself, wherever the offer has 0 before it.
  pub parse_all-amount_section :
      (t n : ℕ) (rest : Bytes) (p : Parse A K) (write : ℕ → Parse A K)
      → IsU64 n
      → ((v : Bytes) → length v ≡ 8 → set_field lib t v p ≡ ok (write (be_value 0 v)))
      → write 0 ≡ p
      → parse_all lib (amount_section t n ++ rest) p ≡ parse_all lib rest (write n)
  unfolding amount_section
  parse_all-amount_section t n rest p write h sets old = elim (Bool-cases (ltb 0 n)) [
    | inl set ↦ rw set (
        parse_all-field t (put_u64 n) rest p (write n) (omega arith)
          (sets (put_u64 n) refl ∙ ap (λ m. ok (write m)) (be_value-put_u64 n h)))
    | inr unset ↦
        let zero_n : n ≡ 0 = ground arith in rw (unset, zero_n) (ap (parse_all lib rest) (sym old))
  ]

  -- An asset id that is left out when nil.
  pub parse_all-asset_section :
      ArkLaws lib
      → (t : ℕ) (x : SerializeError) (o : Option A) (bs rest : Bytes) (p : Parse A K)
        (write : Option A → Parse A K)
      → asset_section lib t x o ≡ ok bs
      → ((v : Bytes) (a : A)
          → lib.new_asset_id_from_bytes v ≡ some a
          → set_field lib t v p ≡ ok (write (some a)))
      → write none ≡ p
      → parse_all lib (bs ++ rest) p ≡ parse_all lib rest (write o)
  unfolding asset_section
  parse_all-asset_section laws t x none bs rest p write e sets old =
      let empty : [] ≡ bs = cc in rw (← empty) (ap (parse_all lib rest) (sym old))
  parse_all-asset_section laws t x (some a) bs rest p write e sets old =
      elim (Option-cases (lib.serialize_asset_id a)) [
        | inl failed ↦ absurd (ground arith)
        | inr (v, done) ↦
            let whole : encode_tlv t v ≡ bs = ground arith in
            rw (← whole) (
              parse_all-field t v rest p (write (some a)) (laws.asset_width a v done)
                (sets v a (laws.asset_round_trip a v done)))
      ]

  -- A key that is left out when nil.
  pub parse_all-key_section :
      ArkLaws lib
      → (t : ℕ) (o : Option K) (rest : Bytes) (p : Parse A K) (write : Option K → Parse A K)
      → IfSome (IsXOnly lib) o
      → ((v : Bytes) (k : K)
          → length v ≡ 32
          → lib.parse_pub_key v ≡ some k
          → set_field lib t v p ≡ ok (write (some k)))
      → write none ≡ p
      → parse_all lib (key_section lib t o ++ rest) p ≡ parse_all lib rest (write o)
  unfolding key_section
  parse_all-key_section laws t none rest p write h sets old = ap (parse_all lib rest) (sym old)
  parse_all-key_section laws t (some k) rest p write h sets old =
      let wide = laws.key_width k in
      parse_all-field t (lib.serialize_pub_key k) rest p (write (some k)) (omega (arith, wide))
        (sets _ k wide h)

  -- A key that is given.
  pub parse_all-key_given :
      ArkLaws lib
      → (t : ℕ) (o : Option K) (k : K) (rest : Bytes) (p : Parse A K) (write : Option K → Parse A K)
      → o ≡ some k
      → IsXOnly lib k
      → ((v : Bytes)
          → length v ≡ 32
          → lib.parse_pub_key v ≡ some k
          → set_field lib t v p ≡ ok (write (some k)))
      → parse_all lib (key_section lib t o ++ rest) p ≡ parse_all lib rest (write o)
  unfolding key_section
  parse_all-key_given laws t o k rest p write e h sets =
      let wide = laws.key_width k in
      rw e (
        parse_all-field t (lib.serialize_pub_key k) rest p (write (some k)) (omega (arith, wide))
          (sets _ wide h))

  -- An exit timelock that is left out when nil.
  pub parse_all-exit_section :
      (o : Option RelativeLocktime) (rest : Bytes) (p : Parse A K)
      (write : Option RelativeLocktime → Parse A K)
      → IfSome (λ d. IsU32 d.value) o
      → ((v : Bytes)
          → length v ≡ 9
          → set_field lib tlv_exit_timelock v p ≡ ok (write (some (exit_of_bytes v))))
      → write none ≡ p
      → parse_all lib (exit_section o ++ rest) p ≡ parse_all lib rest (write o)
  unfolding exit_section
  parse_all-exit_section none rest p write h sets old = ap (parse_all lib rest) (sym old)
  parse_all-exit_section (some d) rest p write h sets old =
      parse_all-field tlv_exit_timelock (exit_bytes d) rest p (write (some d)) (omega arith)
        (sets (exit_bytes d) refl ∙ ap (λ x. ok (write (some x))) (exit_parts d.type d.value h))
