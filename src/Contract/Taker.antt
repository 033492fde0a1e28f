-- ===== src/Contract/Taker.antt =====
-- pkg/contract/taker.go: what FulfillOffer reads from its clients, and the values that it builds.
mod Tests
pub mod Inputs
pub mod Fulfill
use bancod.Prelude.{ℕ, List, Option, Bytes, ℤ, Bool}
use bancod.Contract.Assets.{Vtxo, AssetGroup}
use bancod.Contract.Script.{Closure}

-- arkClient.GetConfigData
pub record ConfigData (K : Type 0) : Type 0 where
  pub checkpoint_tapscript : Bytes
  pub signer_pub_key : K
  pub network : Bytes

-- One of the wallet's offchain addresses.
pub record OffchainAddr : Type 0 where
  pub address : Bytes
  pub tapscripts : List Bytes

pub record VtxoWithTapTree : Type 0 where
  pub vtxo : Vtxo
  pub tapscripts : List Bytes

-- A merkle proof of a taproot leaf.
pub record MerkleProof : Type 0 where
  pub control_block : Bytes
  pub script : Bytes

-- offchain.VtxoInput, with its outpoint and its tapscript written out.
pub record VtxoInput : Type 0 where
  pub hash : Bytes
  pub index : ℕ
  pub amount : ℤ
  pub control_block : Bytes
  pub revealed_script : Bytes
  pub revealed_tapscripts : List Bytes

-- wire.TxOut
pub record TxOut : Type 0 where
  pub value : ℤ
  pub pk_script : Bytes

-- A transaction and its checkpoints, as offchain.BuildTxs makes them. `X` is psbt.Packet.
pub record BuiltTxs (X : Type 0) : Type 0 where
  pub ark_tx : X
  pub checkpoints : List X

-- The clients and libraries that FulfillOffer calls. `none` is an error of the callee. `K` is a
-- public key, `R` a taproot tree and `X` a psbt.
pub record TakerEnv (A K R X : Type 0) : Type 0 where
  pub get_config_data : Option (ConfigData K)
  pub decode_hex : Bytes → Option Bytes
  pub encode_hex : Bytes → Bytes
  -- script.TapscriptsVtxoScript
  pub tap_key : List (Closure K) → Option K
  pub tap_tree : List (Closure K) → Option R
  pub encode_closures : List (Closure K) → Option (List Bytes)
  pub closure_script : Closure K → Option Bytes
  pub p2tr_script : K → Option Bytes
  -- the spendable VTXOs of a script, by the indexer
  pub get_vtxos : Bytes → Option (List Vtxo)
  pub provides_wallet : Bool
  pub list_spendable_vtxos : Option (List Vtxo)
  pub get_addresses : Option (List OffchainAddr)
  pub vtxo_address : Vtxo → K → Bytes → Option Bytes
  pub new_offchain_address : Option Bytes
  -- the VtxoTapKey of a decoded address
  pub decode_address : Bytes → Option K
  -- arkade.NewPacket of one entry, and the extension's output
  pub introspector_packet : Bytes → Option Bytes
  pub extension_tx_out : Bytes → Option (List (AssetGroup A)) → Option TxOut
  -- NewBaseTapLeaf(script).TapHash()
  pub tap_hash : Bytes → Bytes
  pub merkle_proof : R → Bytes → Option MerkleProof
  pub parse_control_block : Bytes → Option Bytes
  pub hash_from_str : Bytes → Option Bytes
  pub parse_vtxo_script : List Bytes → Option (List (Closure K))
  pub forfeit_closures : List (Closure K) → List (Closure K)
  pub build_txs : List VtxoInput → List TxOut → Bytes → Option (BuiltTxs X)
  pub b64_encode : X → Option Bytes
  pub sign_transaction : Bytes → Option Bytes
  -- the introspector's SubmitTx: the finalized ark transaction
  pub submit_tx : Bytes → List Bytes → Option Bytes
  pub tx_id_of_raw : Bytes → Option Bytes

-- The error of each step.
pub data FulfillError : Type 0 where
  config_failed bad_checkpoint_tapscript bad_vtxo_script bad_taptree : FulfillError
  bad_swap_pk_script offer_inconsistency get_vtxos_failed no_swap_vtxo : FulfillError
  no_wallet list_vtxos_failed no_vtxos get_addresses_failed : FulfillError
  no_matching_vtxos new_address_failed bad_taker_address : FulfillError
  bad_taker_pk_script insufficient_btc bad_fulfill_script : FulfillError
  bad_introspector_packet bad_asset_packet bad_extension : FulfillError
  bad_closure_script bad_merkle_proof bad_control_block : FulfillError
  bad_tapscripts bad_txid bad_taker_script no_forfeit_closures : FulfillError
  build_failed encode_failed sign_failed submit_failed bad_final_tx : FulfillError
