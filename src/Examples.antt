-- ===== src/Examples.antt =====
-- Concrete libraries, clients and offers, for the tests of the components: two keys, two assets,
-- and callees that always answer.
use bancod.Prelude.{
  ℕ, ◌≡◌, refl, [], ◌∷◌, Option, none, some, true, false, text, Bytes, bytes_equal, if◌then◌else◌,
  zero, suc, ◌==◌, ◌<◌, ◌^◌, length, subst, sym, pos, arith,
}
use mathlib.Core.Option.{some-injective}
use bancod.Contract.ArkLib.{ArkLib, ArkLaws}
use bancod.Contract.Offer.{Offer}
use bancod.Contract.Assets.{Vtxo, AssetLib, AssetLaws}
use bancod.Contract.Script.{ScriptLib}
use bancod.Contract.Taker.{TakerEnv}
use bancod.Contract.Maker.{MakerEnv}

pub data TestKey : Type 0 where
  alice bob : TestKey

pub data TestAsset : Type 0 where
  gold silver : TestAsset

abbrev pub zeros : ℕ → Bytes
zeros zero = []
zeros (suc n) = 0 ∷ zeros n

abbrev pub key_bytes : TestKey → Bytes
key_bytes alice = 1 ∷ zeros 31
key_bytes bob = 2 ∷ zeros 31

abbrev pub key_of_bytes : Bytes → Option TestKey
key_of_bytes [] = none
key_of_bytes (c ∷ s) = if c == 1 then some alice else if c == 2 then some bob else none

abbrev pub asset_bytes : TestAsset → Bytes
asset_bytes gold = text "gold"
asset_bytes silver = text "silver"

abbrev pub asset_of_bytes : Bytes → Option TestAsset
asset_of_bytes s =
    if bytes_equal s (text "gold")
    then some gold
    else if bytes_equal s (text "silver")
    then some silver
    else none

abbrev pub lib : ArkLib TestAsset TestKey
lib = record {
  new_asset_id_from_bytes = asset_of_bytes;
  serialize_asset_id = λ a. some (asset_bytes a);
  asset_string = asset_bytes;
  asset_txid = asset_bytes;
  parse_pub_key = key_of_bytes;
  serialize_pub_key = key_bytes;
}

asset_reads : (a : TestAsset) → asset_of_bytes (asset_bytes a) ≡ some a
asset_reads gold = refl
asset_reads silver = refl

asset_short : (a : TestAsset) → length (asset_bytes a) < 2 ^ 16
asset_short gold = omega arith
asset_short silver = omega arith

key_reads : (k : TestKey) → key_of_bytes (key_bytes k) ≡ some k
key_reads alice = refl
key_reads bob = refl

key_wide : (k : TestKey) → length (key_bytes k) ≡ 32
key_wide alice = refl
key_wide bob = refl

pub lib_laws : ArkLaws lib
lib_laws = record {
  asset_round_trip =
      λ a bs e. subst (λ s. asset_of_bytes s ≡ some a) (some-injective _ _ e) (asset_reads a);
  asset_width = λ a bs e. subst (λ s. length s < 2 ^ 16) (some-injective _ _ e) (asset_short a);
  key_width = key_wide;
  parsed_key = λ bs k e. key_reads k;
}

abbrev pub scripts : ScriptLib TestKey
scripts = record {
  build_script = λ ops. some (length ops ∷ []);
  arkade_script_hash = λ s. s;
  compute_arkade_script_public_key = λ k h. k;
  absolute_locktime = λ n. n;
}

abbrev pub assets : AssetLib TestAsset
assets = record {
  new_asset_input = λ vin n. some (record { vin = vin; amount = n });
  new_asset_output = λ vout n. some (record { vout = vout; amount = n });
  new_asset_id_from_string = asset_of_bytes;
  new_asset_group = λ a ins outs. some (record { asset_id = some a; inputs = ins; outputs = outs });
  new_packet = λ gs. some gs;
}

pub assets_laws : AssetLaws assets
assets_laws = record {
  input_kept = λ vin n x e. sym (some-injective _ _ e);
  output_kept = λ vout n x e. sym (some-injective _ _ e);
  group_kept = λ a ins outs g e. sym (some-injective _ _ e);
  packet_kept = λ gs p e. sym (some-injective _ _ e);
}

-- A P2TR script.
abbrev pub p2tr : TestKey → Bytes
p2tr k = 0x51 ∷ 32 ∷ key_bytes k

-- The swap output: 5000 sats and 40 of silver.
abbrev pub swap_vtxo : Vtxo
swap_vtxo = record {
  txid = text "swap";
  vout = 0;
  amount = 5000;
  assets = record { asset_id = text "silver"; amount = 40 } ∷ [];
  spent = false;
  recoverable = false;
}

-- The taker's: 9000 sats and 300 of gold.
abbrev pub taker_vtxo : Vtxo
taker_vtxo = record {
  txid = text "take";
  vout = 1;
  amount = 9000;
  assets = record { asset_id = text "gold"; amount = 300 } ∷ [];
  spent = false;
  recoverable = false;
}

-- Silver offered for 200 of gold.
abbrev pub gold_offer : Offer TestAsset TestKey
gold_offer = record {
  swap_pk_script = p2tr alice;
  want_amount = 200;
  want_asset = some gold;
  offer_asset = some silver;
  ratio_num = 0;
  ratio_den = 0;
  cancel_at = 0;
  maker_pk_script = p2tr bob;
  maker_public_key = none;
  introspector_pubkey = some alice;
  exit_delay = none;
}

-- Silver offered for 700 sats.
abbrev pub btc_offer : Offer TestAsset TestKey
btc_offer = record gold_offer { want_amount = 700; want_asset = none }

abbrev pub env : TakerEnv TestAsset TestKey (Unit {0}) Bytes
env = record {
  get_config_data =
      some (record { checkpoint_tapscript = []; signer_pub_key = bob; network = text "ark" });
  decode_hex = λ s. some s;
  encode_hex = λ s. s;
  tap_key = λ cs. some alice;
  tap_tree = λ cs. some tt;
  encode_closures = λ cs. some [];
  closure_script = λ c. some (text "closure");
  p2tr_script = λ k. some (p2tr k);
  get_vtxos = λ s. some (swap_vtxo ∷ []);
  provides_wallet = true;
  list_spendable_vtxos = some (taker_vtxo ∷ []);
  get_addresses = some (record { address = text "home"; tapscripts = text "leaf" ∷ [] } ∷ []);
  vtxo_address = λ v k n. some (text "home");
  new_offchain_address = some (text "home");
  decode_address = λ s. some bob;
  introspector_packet = λ s. some s;
  extension_tx_out = λ s gs. some (record { value = pos 0; pk_script = text "ext" });
  tap_hash = λ s. s;
  merkle_proof = λ t h. some (record { control_block = []; script = h });
  parse_control_block = λ s. some s;
  hash_from_str = λ s. some s;
  parse_vtxo_script = λ ts. some [];
  forfeit_closures = λ cs. cs;
  build_txs = λ ins outs c. some (record { ark_tx = text "ark"; checkpoints = [] });
  b64_encode = λ x. some x;
  sign_transaction = λ s. some s;
  submit_tx = λ s cs. some s;
  tx_id_of_raw = λ s. some s;
}

abbrev pub maker : MakerEnv TestKey
maker = record {
  introspector_signer = some (text "02");
  parse_compressed_key = λ s. some alice;
  encode_address = λ a. some (text "addr");
  decode_full_address = λ s. none;
  address_pk_script = λ a. some (p2tr a.vtxo_tap_key);
  get_all_vtxos = λ s. some (swap_vtxo ∷ []);
}
