-- ===== src/Contract/ArkLib.antt =====
-- What pkg/contract calls of arkd's ark-lib/asset and of btcec: asset ids and public keys, with
-- their encodings. `A` stands for asset.AssetId and `K` for btcec.PublicKey.
use bancod.Prelude.{◌≡◌, Bytes, IsU16, Option, some, length}

pub record ArkLib (A K : Type 0) : Type 0 where
  -- asset.NewAssetIdFromBytes; `none` is an error
  pub new_asset_id_from_bytes : Bytes → Option A
  -- (*AssetId).Serialize
  pub serialize_asset_id : A → Option Bytes
  -- (*AssetId).String
  pub asset_string : A → Bytes
  -- the Txid array of an AssetId
  pub asset_txid : A → Bytes
  -- schnorr.ParsePubKey
  pub parse_pub_key : Bytes → Option K
  -- schnorr.SerializePubKey: the 32 bytes of the x coordinate
  pub serialize_pub_key : K → Bytes

-- A key with an even y, as schnorr.ParsePubKey returns it.
abbrev pub IsXOnly : {A K : Type 0} → ArkLib A K → K → Type 0
IsXOnly lib k = lib.parse_pub_key (lib.serialize_pub_key k) ≡ some k

-- What the documentation of the two libraries says of the encodings. An x-only key does not keep
-- the sign of y, so no law says that every key reads back: see `IsXOnly`.
pub record ArkLaws {A K : Type 0} (lib : ArkLib A K) : Type 0 where
  pub asset_round_trip :
      (a : A) (bs : Bytes)
      → lib.serialize_asset_id a ≡ some bs
      → lib.new_asset_id_from_bytes bs ≡ some a
  pub asset_width : (a : A) (bs : Bytes) → lib.serialize_asset_id a ≡ some bs → IsU16 (length bs)
  pub key_width : (k : K) → length (lib.serialize_pub_key k) ≡ 32
  -- schnorr.ParsePubKey returns the key with an even y.
  pub parsed_key : (bs : Bytes) (k : K) → lib.parse_pub_key bs ≡ some k → IsXOnly lib k
