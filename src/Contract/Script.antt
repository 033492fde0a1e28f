-- ===== src/Contract/Script.antt =====
-- pkg/contract/offer.go: the script and the closures that an offer commits to, and its packet.
mod Tests
pub mod Commits
pub mod Closures
use bancod.Prelude.{
  ℕ, ◌≡◌, List, [], ◌∷◌, ◌++◌, Option, none, some, ltb, leb, if◌then◌else◌, length, drop, Bytes, ℤ,
  to_i64, Result, ok, err, ◌>>=◌, ◌>>◌, guard, or_fail,
}
use bancod.Contract.ArkLib.{ArkLib}
use bancod.Contract.Offer.{
  Offer, OfferError, RelativeLocktime, SerializeError, serialize, deserialize_offer,
}

-- The opcodes that FulfillScript names.
pub data OpCode : Type 0 where
  op_0 op_1 op_equal op_equalverify op_verify op_greaterthanorequal : OpCode
  op_inspectoutputvalue op_inspectoutputscriptpubkey op_inspectoutassetlookup : OpCode

-- One call of the script builder: AddOp, AddData or AddInt64.
pub data ScriptOp : Type 0 where
  add_op : OpCode → ScriptOp
  add_data : Bytes → ScriptOp
  add_int64 : ℤ → ScriptOp

-- `panicked` is a slice out of range or a nil pointer.
pub data ScriptError : Type 0 where
  panicked script_failed : ScriptError

-- A tapscript closure. A key is a pointer, which can be nil.
pub data Closure (K : Type 0) : Type 0 where
  multisig : List (Option K) → Closure K
  cltv_multisig : List (Option K) → ℕ → Closure K
  csv_multisig : List (Option K) → RelativeLocktime → Closure K

abbrev pub pub_keys : {K : Type 0} → Closure K → List (Option K)
pub_keys (multisig ks) = ks
pub_keys (cltv_multisig ks n) = ks
pub_keys (csv_multisig ks d) = ks

-- What the script side calls: txscript's builder, which can fail, and the arkade key tweak.
pub record ScriptLib (K : Type 0) : Type 0 where
  pub build_script : List ScriptOp → Option Bytes
  pub arkade_script_hash : Bytes → Bytes
  pub compute_arkade_script_public_key : K → Bytes → K
  -- arklib.AbsoluteLocktime of a uint64
  pub absolute_locktime : ℕ → ℕ

-- scriptPubKeyCheck
unfoldable pub script_pub_key_check : Bytes → List ScriptOp
script_pub_key_check program =
    add_op op_0
    ∷ add_op op_inspectoutputscriptpubkey
    ∷ add_op op_1
    ∷ add_op op_equalverify
    ∷ add_data program
    ∷ add_op op_equal
    ∷ []

module _ {A K : Type 0} (lib : ArkLib A K) where
  -- What FulfillScript hands to the builder, for a given witness program.
  unfoldable pub fulfill_ops : Offer A K → Bytes → List ScriptOp
  fulfill_ops o program = elim o.want_asset [
    | none ↦
        add_op op_0
        ∷ add_op op_inspectoutputvalue
        ∷ add_int64 (to_i64 o.want_amount)
        ∷ add_op op_greaterthanorequal
        ∷ add_op op_verify
        ∷ script_pub_key_check program
    | some a ↦
        add_op op_0
        ∷ add_data (lib.asset_txid a)
        ∷ add_op op_0
        ∷ add_op op_inspectoutassetlookup
        ∷ add_op op_verify
        ∷ add_int64 (to_i64 o.want_amount)
        ∷ add_op op_greaterthanorequal
        ∷ add_op op_verify
        ∷ script_pub_key_check program
  ]

  -- o.MakerPkScript[2:] panics on fewer than two bytes.
  unfoldable pub maker_witness_program : Offer A K → Result ScriptError Bytes
  maker_witness_program o = do
    guard (leb 2 (length o.maker_pk_script)) panicked
    ok (drop 2 o.maker_pk_script)

  module _ (scripts : ScriptLib K) where
    unfoldable pub fulfill_script : Offer A K → Result ScriptError Bytes
    fulfill_script o = do
      program ← maker_witness_program o
      or_fail (scripts.build_script (fulfill_ops o program)) script_failed

    pub cancel_closures : K → Offer A K → List (Closure K)
    cancel_closures server o =
        if ltb 0 o.cancel_at
        then cltv_multisig (o.maker_public_key ∷ some server ∷ [])
            (scripts.absolute_locktime o.cancel_at)
          ∷ []
        else []

    pub exit_closures : K → Offer A K → List (Closure K)
    exit_closures server o = elim o.exit_delay [
      | none ↦ []
      | some d ↦ csv_multisig (o.maker_public_key ∷ some server ∷ []) d ∷ []
    ]

    -- The closures of the taptree: fulfill, then cancel and exit where the offer has them.
    unfoldable pub vtxo_script : K → Offer A K → Result ScriptError (List (Closure K))
    unfolding cancel_closures exit_closures
    vtxo_script server o = do
      fulfill ← fulfill_script o
      introspector ← or_fail o.introspector_pubkey panicked
      let hash = scripts.arkade_script_hash fulfill
      let tweaked = scripts.compute_arkade_script_public_key introspector hash
      ok (
          multisig (some server ∷ some tweaked ∷ [])
          ∷ (cancel_closures server o ++ exit_closures server o))

-- The packets of an extension: the concrete type UnknownPacket, or any other.
pub data Packet : Type 0 where
  unknown_packet : ℕ → Bytes → Packet
  other_packet : ℕ → Packet

abbrev pub packet_type : ℕ
packet_type = 0x03

pub data FindError : Type 0 where
  unexpected_type : FindError
  not_decoded : OfferError → FindError

module _ {A K : Type 0} (lib : ArkLib A K) where
  unfoldable pub to_packet : Offer A K → Result SerializeError Packet
  to_packet o = do bytes ← serialize lib o; ok (unknown_packet packet_type bytes)

  unfoldable pub decode_packet : Option Packet → Result FindError (Option (Offer A K))
  decode_packet none = ok none
  decode_packet (some (other_packet t)) = err unexpected_type
  decode_packet (some (unknown_packet t bytes)) = elim (deserialize_offer lib bytes) [
    | ok o ↦ ok (some o)
    | err e ↦ err (not_decoded e)
  ]

  -- The argument is the extension's GetPacketByType.
  unfoldable pub find_banco_offer : (ℕ → Option Packet) → Result FindError (Option (Offer A K))
  find_banco_offer get_packet_by_type = decode_packet (get_packet_by_type packet_type)
