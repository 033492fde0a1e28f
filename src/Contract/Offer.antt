-- ===== src/Contract/Offer.antt =====
-- pkg/contract/offer.go: the Offer struct and its TLV form, [type: 1B][length: 2B][value].
mod Tests
pub mod Loop
pub mod Sections
pub mod RoundTrip
pub mod Checked
pub mod Tail
use bancod.Prelude.{
  ℕ, zero, suc, ◌+◌, ◌%◌, ◌^◌, ◌≡◌, Bool, true, false, List, [], ◌∷◌, ◌++◌, Option, none, some, ltb,
  ◌==◌, if◌then◌else◌, length, take, drop, Bytes, be_u16, be_value, put_u16, put_u64, Result, ok,
  err, ◌>>=◌, ◌>>◌, guard, or_fail,
}
use bancod.Contract.ArkLib.{ArkLib}

pub data LocktimeType : Type 0 where
  block second : LocktimeType

-- arklib.RelativeLocktime, which the offer only stores.
pub record RelativeLocktime : Type 0 where
  pub type : LocktimeType
  pub value : ℕ

abbrev pub tlv_swap_pk_script : ℕ
tlv_swap_pk_script = 0x01

abbrev pub tlv_want_amount : ℕ
tlv_want_amount = 0x02

abbrev pub tlv_want_asset : ℕ
tlv_want_asset = 0x03

abbrev pub tlv_cancel_delay : ℕ
tlv_cancel_delay = 0x04

abbrev pub tlv_maker_pk_script : ℕ
tlv_maker_pk_script = 0x05

abbrev pub tlv_maker_public_key : ℕ
tlv_maker_public_key = 0x07

abbrev pub tlv_introspector_pubkey : ℕ
tlv_introspector_pubkey = 0x08

abbrev pub tlv_ratio_num : ℕ
tlv_ratio_num = 0x09

abbrev pub tlv_ratio_den : ℕ
tlv_ratio_den = 0x0a

abbrev pub tlv_offer_asset : ℕ
tlv_offer_asset = 0x0b

abbrev pub tlv_exit_timelock : ℕ
tlv_exit_timelock = 0x0c

-- A nil pointer is `none`.
pub record Offer (A K : Type 0) : Type 0 where
  pub swap_pk_script : Bytes
  pub want_amount : ℕ
  pub want_asset : Option A
  pub offer_asset : Option A
  pub ratio_num : ℕ
  pub ratio_den : ℕ
  pub cancel_at : ℕ
  pub maker_pk_script : Bytes
  pub maker_public_key : Option K
  pub introspector_pubkey : Option K
  pub exit_delay : Option RelativeLocktime

-- `out_of_fuel` is no error of the source: it marks a loop cut short.
pub data OfferError : Type 0 where
  truncated_header truncated_value : OfferError
  invalid_want_amount invalid_want_asset invalid_cancel_delay : OfferError
  invalid_maker_public_key invalid_ratio_num invalid_ratio_den : OfferError
  invalid_offer_asset invalid_introspector_length : OfferError
  invalid_introspector_pubkey invalid_exit_timelock : OfferError
  unknown_tlv_type : ℕ → OfferError
  missing_swap_pk_script missing_want_amount : OfferError
  missing_maker_pk_script missing_introspector_pubkey : OfferError
  invalid_maker_pk_script : OfferError
  out_of_fuel : OfferError

pub data SerializeError : Type 0 where
  want_asset_failed offer_asset_failed : SerializeError

-- The variables of DeserializeOffer's loop but for the input.
pub record Parse (A K : Type 0) : Type 0 where
  pub offer : Offer A K
  pub has_swap_pk_script : Bool
  pub has_want_amount : Bool
  pub has_maker_pk_script : Bool
  pub has_introspector_pubkey : Bool

module _ {A K : Type 0} where
  -- &Offer{}
  abbrev pub empty_offer : Offer A K
  empty_offer = record {
    swap_pk_script = [];
    want_amount = 0;
    want_asset = none;
    offer_asset = none;
    ratio_num = 0;
    ratio_den = 0;
    cancel_at = 0;
    maker_pk_script = [];
    maker_public_key = none;
    introspector_pubkey = none;
    exit_delay = none;
  }

  abbrev pub empty_parse : Parse A K
  empty_parse = record {
    offer = empty_offer;
    has_swap_pk_script = false;
    has_want_amount = false;
    has_maker_pk_script = false;
    has_introspector_pubkey = false;
  }

-- The nine bytes of an exit timelock: the type, then the delay, of which uint32 keeps the low half.
abbrev pub exit_of_bytes : Bytes → RelativeLocktime
exit_of_bytes [] = record { type = block; value = 0 }
exit_of_bytes (b ∷ bs) = record {
  type = if b == 1 then second else block;
  value = be_value 0 bs % 2 ^ 32;
}

abbrev pub type_byte : LocktimeType → ℕ
type_byte block = 0
type_byte second = 1

abbrev pub exit_bytes : RelativeLocktime → Bytes
exit_bytes d = type_byte d.type ∷ put_u64 d.value

-- The length field keeps the low sixteen bits of the length.
unfoldable pub encode_tlv : ℕ → Bytes → Bytes
encode_tlv t v = t ∷ (put_u16 (length v % 2 ^ 16) ++ v)

-- A part of Serialize that is left out at 0.
unfoldable pub amount_section : ℕ → ℕ → Bytes
amount_section t n = if ltb 0 n then encode_tlv t (put_u64 n) else []

-- The exit timelock, left out when nil.
unfoldable pub exit_section : Option RelativeLocktime → Bytes
exit_section none = []
exit_section (some d) = encode_tlv tlv_exit_timelock (exit_bytes d)

module _ {A K : Type 0} (lib : ArkLib A K) where
  open lib use {new_asset_id_from_bytes, serialize_asset_id, parse_pub_key, serialize_pub_key}

  -- The switch of DeserializeOffer's loop.
  unfoldable pub set_field : ℕ → Bytes → Parse A K → Result OfferError (Parse A K)
  set_field t v p =
      if t == tlv_swap_pk_script
      then ok
          (record p { offer = record p.offer { swap_pk_script = v }; has_swap_pk_script = true })
      else if t == tlv_want_amount
      then (do
        guard (length v == 8) invalid_want_amount
        ok (record p {
          offer = record p.offer { want_amount = be_value 0 v };
          has_want_amount = true;
        }))
      else if t == tlv_want_asset
      then (do
        a ← or_fail (new_asset_id_from_bytes v) invalid_want_asset
        ok (record p { offer = record p.offer { want_asset = some a } }))
      else if t == tlv_cancel_delay
      then (do
        guard (length v == 8) invalid_cancel_delay
        ok (record p { offer = record p.offer { cancel_at = be_value 0 v } }))
      else if t == tlv_maker_pk_script
      then ok
          (record p { offer = record p.offer { maker_pk_script = v }; has_maker_pk_script = true })
      else if t == tlv_maker_public_key
      then (do
        k ← or_fail (parse_pub_key v) invalid_maker_public_key
        ok (record p { offer = record p.offer { maker_public_key = some k } }))
      else if t == tlv_ratio_num
      then (do
        guard (length v == 8) invalid_ratio_num
        ok (record p { offer = record p.offer { ratio_num = be_value 0 v } }))
      else if t == tlv_ratio_den
      then (do
        guard (length v == 8) invalid_ratio_den
        ok (record p { offer = record p.offer { ratio_den = be_value 0 v } }))
      else if t == tlv_offer_asset
      then (do
        a ← or_fail (new_asset_id_from_bytes v) invalid_offer_asset
        ok (record p { offer = record p.offer { offer_asset = some a } }))
      else if t == tlv_introspector_pubkey
      then (do
        guard (length v == 32) invalid_introspector_length
        k ← or_fail (parse_pub_key v) invalid_introspector_pubkey
        ok (record p {
          offer = record p.offer { introspector_pubkey = some k };
          has_introspector_pubkey = true;
        }))
      else if t == tlv_exit_timelock
      then (do
        guard (length v == 9) invalid_exit_timelock
        ok (record p { offer = record p.offer { exit_delay = some (exit_of_bytes v) } }))
      else err (unknown_tlv_type t)

  -- The loop over the input. The list is data[offset:], so `offset < len(data)` is the first test.
  unfoldable pub parse_loop : ℕ → Bytes → Parse A K → Result OfferError (Parse A K)
  parse_loop fuel [] p = ok p
  parse_loop zero (b ∷ bs) p = err out_of_fuel
  parse_loop (suc fuel) (t ∷ hi ∷ lo ∷ rest) p =
      let n = be_u16 hi lo in
      if ltb (length rest) n
      then err truncated_value
      else set_field t (take n rest) p >>= parse_loop fuel (drop n rest)
  parse_loop (suc fuel) (b ∷ bs) p = err truncated_header

  -- The tests after the loop.
  unfoldable pub check_required : Parse A K → Result OfferError (Offer A K)
  check_required p = do
    guard p.has_swap_pk_script missing_swap_pk_script
    guard p.has_want_amount missing_want_amount
    guard p.has_maker_pk_script missing_maker_pk_script
    guard p.has_introspector_pubkey missing_introspector_pubkey
    guard (length p.offer.maker_pk_script == 34) invalid_maker_pk_script
    ok p.offer

  -- Each round takes three bytes at least, so as many rounds as bytes are enough.
  unfoldable pub deserialize_offer : Bytes → Result OfferError (Offer A K)
  deserialize_offer bs = parse_loop (length bs) bs empty_parse >>= check_required

  -- The parts of Serialize that are left out when nil.
  unfoldable pub asset_section : ℕ → SerializeError → Option A → Result SerializeError Bytes
  asset_section t e none = ok []
  asset_section t e (some a) = do bs ← or_fail (serialize_asset_id a) e; ok (encode_tlv t bs)

  unfoldable pub key_section : ℕ → Option K → Bytes
  key_section t none = []
  key_section t (some k) = encode_tlv t (serialize_pub_key k)

  unfoldable pub serialize : Offer A K → Result SerializeError Bytes
  serialize o = do
    want ← asset_section tlv_want_asset want_asset_failed o.want_asset
    offered ← asset_section tlv_offer_asset offer_asset_failed o.offer_asset
    ok (
        encode_tlv tlv_swap_pk_script o.swap_pk_script
        ++ (encode_tlv tlv_want_amount (put_u64 o.want_amount)
            ++ (want
                ++ (amount_section tlv_ratio_num o.ratio_num
                    ++ (amount_section tlv_ratio_den o.ratio_den
                        ++ (offered
                            ++ (amount_section tlv_cancel_delay o.cancel_at
                                ++ (encode_tlv tlv_maker_pk_script o.maker_pk_script
                                    ++ (key_section tlv_maker_public_key o.maker_public_key
                                        ++ (key_section tlv_introspector_pubkey
                                              o.introspector_pubkey
                                            ++ exit_section o.exit_delay))))))))))
