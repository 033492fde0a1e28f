-- ===== src/Contract/Maker.antt =====
-- pkg/contract/maker.go: CreateOffer and GetOffers.
mod Tests
pub mod Addressed
pub mod Accepted
use bancod.Prelude.{
  ℕ, ◌≡◌, Bool, true, false, not, List, [], ◌∷◌, Option, none, some, ltb, map, Bytes, Result, ok,
  err, ◌>>=◌, ◌>>◌, guard, or_fail,
}
use bancod.Contract.ArkLib.{ArkLib}
use bancod.Contract.Offer.{Offer, RelativeLocktime, empty_offer, serialize}
use bancod.Contract.Assets.{Vtxo}
use bancod.Contract.Script.{ScriptLib, Packet, vtxo_script, to_packet}
use bancod.Contract.Taker.{TakerEnv}

pub record CreateOfferParams (A : Type 0) : Type 0 where
  pub want_amount : ℕ
  pub want_asset : Option A
  pub cancel_at : ℕ
  pub exit_delay : Option RelativeLocktime

pub record CreateOfferResult : Type 0 where
  pub offer_hex : Bytes
  pub packet : Packet
  pub swap_address : Bytes

pub record OfferStatus : Type 0 where
  pub txid : Bytes
  pub vout : ℕ
  pub value : ℕ
  pub spendable : Bool

-- arklib.Address
pub record Address (K : Type 0) : Type 0 where
  pub hrp : Bytes
  pub signer : K
  pub vtxo_tap_key : K

-- What the maker calls beside the taker's clients: the introspector's GetInfo, btcec.ParsePubKey,
-- and the methods of arklib.Address. `none` is an error.
pub record MakerEnv (K : Type 0) : Type 0 where
  pub introspector_signer : Option Bytes
  pub parse_compressed_key : Bytes → Option K
  pub encode_address : Address K → Option Bytes
  pub decode_full_address : Bytes → Option (Address K)
  pub address_pk_script : Address K → Option Bytes
  -- the VTXOs of a script, spent ones too, by the indexer
  pub get_all_vtxos : Bytes → Option (List Vtxo)

pub data MakerError : Type 0 where
  cancel_not_supported exit_not_supported info_failed : MakerError
  bad_pubkey_hex bad_pubkey new_address_failed bad_maker_address : MakerError
  bad_maker_pk_script config_failed bad_vtxo_script bad_taptree : MakerError
  bad_swap_address bad_swap_pk_script not_encoded no_packet get_vtxos_failed : MakerError

abbrev pub wrapped {ℓ} : {E : Type 0} {B : Type ℓ} → Result E B → MakerError → Result MakerError B
wrapped (ok b) e = ok b
wrapped (err x) e = err e

-- The offer before it has its swap script.
unfoldable pub unaddressed : {A K : Type 0} → CreateOfferParams A → Bytes → K → Offer A K
unaddressed params pk_script key = record empty_offer {
  want_amount = params.want_amount;
  want_asset = params.want_asset;
  cancel_at = params.cancel_at;
  maker_pk_script = pk_script;
  introspector_pubkey = some key;
}

unfoldable pub is_given : Option RelativeLocktime → Bool
is_given none = false
is_given (some d) = true

pub status_of : Vtxo → OfferStatus
status_of v = record { txid = v.txid; vout = v.vout; value = v.amount; spendable = not v.spent }

module _ {A K R X : Type 0} (lib : ArkLib A K) (scripts : ScriptLib K) (env : TakerEnv A K R X)
    (maker : MakerEnv K) where
  -- The introspector's key.
  unfoldable pub introspector_key : Result MakerError K
  introspector_key = do
    hex ← or_fail maker.introspector_signer info_failed
    bytes ← or_fail (env.decode_hex hex) bad_pubkey_hex
    or_fail (maker.parse_compressed_key bytes) bad_pubkey

  -- The script that the maker is paid to.
  unfoldable pub new_maker_pk_script : Result MakerError Bytes
  new_maker_pk_script = do
    address ← or_fail env.new_offchain_address new_address_failed
    key ← or_fail (env.decode_address address) bad_maker_address
    or_fail (env.p2tr_script key) bad_maker_pk_script

  -- The address of the contract of an offer.
  unfoldable pub swap_address_of : K → Bytes → Offer A K → Result MakerError (Address K)
  swap_address_of server network o = do
    closures ← wrapped (vtxo_script lib scripts server o) bad_vtxo_script
    key ← or_fail (env.tap_key closures) bad_taptree
    ok (record { hrp = network; signer = server; vtxo_tap_key = key })

  -- The offer with its swap address filled in, encoded.
  unfoldable pub encode_offer : Bytes → Offer A K → Result MakerError CreateOfferResult
  encode_offer swap_address o = do
    encoded ← wrapped (serialize lib o) not_encoded
    packet ← wrapped (to_packet lib o) no_packet
    ok (record { offer_hex = env.encode_hex encoded; packet = packet; swap_address = swap_address })

  -- From the maker's offer without its swap script on.
  unfoldable pub address_offer : K → Bytes → Offer A K → Result MakerError CreateOfferResult
  address_offer server network o = do
    swap ← swap_address_of server network o
    swap_address ← or_fail (maker.encode_address swap) bad_swap_address
    swap_pk_script ← or_fail (maker.address_pk_script swap) bad_swap_pk_script
    encode_offer swap_address (record o { swap_pk_script = swap_pk_script })

  unfoldable pub create_offer : CreateOfferParams A → Result MakerError CreateOfferResult
  create_offer params = do
    guard (not (ltb 0 params.cancel_at)) cancel_not_supported
    guard (not (is_given params.exit_delay)) exit_not_supported
    key ← introspector_key
    pk_script ← new_maker_pk_script
    cfg ← or_fail env.get_config_data config_failed
    address_offer cfg.signer_pub_key cfg.network (unaddressed params pk_script key)

  pub get_offers : Bytes → Result MakerError (List OfferStatus)
  get_offers swap_address = do
    address ← or_fail (maker.decode_full_address swap_address) bad_swap_address
    pk_script ← or_fail (maker.address_pk_script address) bad_swap_pk_script
    vtxos ← or_fail (maker.get_all_vtxos (env.encode_hex pk_script)) get_vtxos_failed
    ok (map status_of vtxos)
