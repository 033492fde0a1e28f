-- ===== src/Contract/Assets.antt =====
-- pkg/contract/taker.go, buildFulfillAssetPacket: how assets flow from the inputs of the
-- fulfillment to its outputs. Input 0 is the swap VTXO, output 0 the maker, output 1 the taker.
mod Tests
pub mod Register
pub mod Balance
pub mod Conserve
use bancod.Prelude.{
  ℕ, zero, suc, ◌+◌, ◌-◌, ◌%◌, ◌^◌, ◌≡◌, Bool, true, false, not, ◌&&◌, List, [], ◌∷◌, ◌++◌, Option,
  none, some, ltb, ◌==◌, if◌then◌else◌, length, Bytes, bytes_equal, Result, ok, err, ◌>>=◌, or_fail,
}
use bancod.Contract.ArkLib.{ArkLib}
use bancod.Contract.Offer.{Offer}

-- clientTypes.Asset and the fields of clientTypes.Vtxo that the code reads.
pub record Asset : Type 0 where
  pub asset_id : Bytes
  pub amount : ℕ

pub record Vtxo : Type 0 where
  pub txid : Bytes
  pub vout : ℕ
  pub amount : ℕ
  pub assets : List Asset
  pub spent : Bool
  pub recoverable : Bool

pub record AssetInput : Type 0 where
  pub vin : ℕ
  pub amount : ℕ

pub record AssetOutput : Type 0 where
  pub vout : ℕ
  pub amount : ℕ

-- asset.AssetGroup; a nil AssetId is the group of a new asset.
pub record AssetGroup (A : Type 0) : Type 0 where
  pub asset_id : Option A
  pub inputs : List AssetInput
  pub outputs : List AssetOutput

-- The constructors of ark-lib/asset, each of which can refuse its arguments.
pub record AssetLib (A : Type 0) : Type 0 where
  pub new_asset_input : ℕ → ℕ → Option AssetInput
  pub new_asset_output : ℕ → ℕ → Option AssetOutput
  pub new_asset_id_from_string : Bytes → Option A
  pub new_asset_group : A → List AssetInput → List AssetOutput → Option (AssetGroup A)
  pub new_packet : List (AssetGroup A) → Option (List (AssetGroup A))

-- A constructor that accepts its arguments keeps them.
pub record AssetLaws {A : Type 0} (assets : AssetLib A) : Type 0 where
  pub input_kept :
      (vin n : ℕ) (x : AssetInput)
      → assets.new_asset_input vin n ≡ some x
      → x ≡ record { vin = vin; amount = n }
  pub output_kept :
      (vout n : ℕ) (x : AssetOutput)
      → assets.new_asset_output vout n ≡ some x
      → x ≡ record { vout = vout; amount = n }
  pub group_kept :
      (a : A) (ins : List AssetInput) (outs : List AssetOutput) (g : AssetGroup A)
      → assets.new_asset_group a ins outs ≡ some g
      → g ≡ record { asset_id = some a; inputs = ins; outputs = outs }
  pub packet_kept : (gs p : List (AssetGroup A)) → assets.new_packet gs ≡ some p → p ≡ gs

-- The local type of buildFulfillAssetPacket, and its map, in the order of first insertion.
pub record AssetTransfer : Type 0 where
  pub inputs : List AssetInput
  pub outputs : List AssetOutput

abbrev pub Transfers : Type 0
Transfers = List (Bytes × AssetTransfer)

pub data AssetError : Type 0 where
  bad_input bad_output bad_asset_id bad_group bad_packet : AssetError
  asset_not_found : Bytes → AssetError

-- `totalIn += in.Amount` and `totalOut += out.Amount`, on uint64.
unfoldable pub total_in : ℕ → List AssetInput → ℕ
total_in acc [] = acc
total_in acc (x ∷ xs) = total_in ((acc + x.amount) % 2 ^ 64) xs

unfoldable pub total_out : ℕ → List AssetOutput → ℕ
total_out acc [] = acc
total_out acc (x ∷ xs) = total_out ((acc + x.amount) % 2 ^ 64) xs

-- ensureTransfer, and the append to its inputs.
unfoldable pub add_input : Bytes → AssetInput → Transfers → Transfers
add_input id x [] = (id, record { inputs = x ∷ []; outputs = [] }) ∷ []
add_input id x ((k, t) ∷ ts) =
    if bytes_equal k id
    then (k, record t { inputs = t.inputs ++ x ∷ [] }) ∷ ts
    else (k, t) ∷ add_input id x ts

-- `transfers[wantAssetStr]`, and the append to its outputs; `none` where the key is missing.
unfoldable pub add_output : Bytes → AssetOutput → Transfers → Option Transfers
add_output id x [] = none
add_output id x ((k, t) ∷ ts) =
    if bytes_equal k id
    then some ((k, record t { outputs = t.outputs ++ x ∷ [] }) ∷ ts)
    else elim (add_output id x ts) [ none ↦ none | some ts' ↦ some ((k, t) ∷ ts') ]

unfoldable pub find_transfer : Bytes → Transfers → Option AssetTransfer
find_transfer id [] = none
find_transfer id ((k, t) ∷ ts) = if bytes_equal k id then some t else find_transfer id ts

module _ {A K : Type 0} (lib : ArkLib A K) (assets : AssetLib A) where
  -- One round of the loops over Assets.
  unfoldable pub register_assets : ℕ → List Asset → Transfers → Result AssetError Transfers
  register_assets vin [] ts = ok ts
  register_assets vin (a ∷ more) ts = do
    x ← or_fail (assets.new_asset_input vin a.amount) bad_input
    register_assets vin more (add_input a.asset_id x ts)

  -- The loop over the taker's VTXOs from index i on: their inputs are numbered from 1, as uint16.
  unfoldable pub register_takers : ℕ → List Vtxo → Transfers → Result AssetError Transfers
  register_takers i [] ts = ok ts
  register_takers i (v ∷ vs) ts = do
    ts' ← register_assets ((i + 1) % 2 ^ 16) v.assets ts
    register_takers (i + 1) vs ts'

  -- The maker's wanted asset goes to output 0.
  unfoldable pub route_wanted : Offer A K → Transfers → Result AssetError Transfers
  route_wanted o ts = elim o.want_asset [
    | none ↦ ok ts
    | some a ↦ elim (find_transfer (lib.asset_string a) ts) [
      | none ↦ err (asset_not_found (lib.asset_string a))
      | some t ↦ (do
        x ← or_fail (assets.new_asset_output 0 o.want_amount) bad_output
        or_fail (add_output (lib.asset_string a) x ts) (asset_not_found (lib.asset_string a)))
    ]
  ]

  -- What a transfer has left goes to output 1.
  unfoldable pub give_change : AssetTransfer → Result AssetError AssetTransfer
  give_change t =
      let n = total_in 0 t.inputs in
      let m = total_out 0 t.outputs in
      if ltb m n
      then (do
        x ← or_fail (assets.new_asset_output 1 (n - m)) bad_output
        ok (record t { outputs = t.outputs ++ x ∷ [] }))
      else ok t

  -- The loop of give_change. Each round changes its own transfer alone, so the order of Go's map
  -- does not matter to the result.
  unfoldable pub route_change : Transfers → Result AssetError Transfers
  route_change [] = ok []
  route_change ((k, t) ∷ ts) = do t' ← give_change t; ts' ← route_change ts; ok ((k, t') ∷ ts')

  -- The wanted group, which must be at index 0.
  unfoldable pub wanted_group : Offer A K → Transfers → Result AssetError (List (AssetGroup A))
  wanted_group o ts = elim o.want_asset [
    | none ↦ ok []
    | some a ↦ elim (find_transfer (lib.asset_string a) ts) [
      | none ↦ ok []
      | some t ↦
          if ltb 0 (length t.inputs)
          then (do g ← or_fail (assets.new_asset_group a t.inputs t.outputs) bad_group; ok (g ∷ []))
          else ok []
    ]
  ]

  abbrev pub is_wanted : Offer A K → Bytes → Bool
  is_wanted o id = elim o.want_asset [ none ↦ false | some a ↦ bytes_equal id (lib.asset_string a) ]

  -- The groups of the other transfers.
  unfoldable pub other_groups : Offer A K → Transfers → Result AssetError (List (AssetGroup A))
  other_groups o [] = ok []
  other_groups o ((k, t) ∷ ts) =
      let rest = other_groups o ts in
      if length t.inputs == 0 then rest else if is_wanted o k then rest else (do
        a ← or_fail (assets.new_asset_id_from_string k) bad_asset_id
        g ← or_fail (assets.new_asset_group a t.inputs t.outputs) bad_group
        gs ← rest
        ok (g ∷ gs))

  -- The groups, from the balanced transfers. `range_order` stands for the order in which Go ranges
  -- over the map.
  unfoldable pub group_packet :
      (Transfers → Transfers)
      → Offer A K
      → Transfers
      → Result AssetError (Option (List (AssetGroup A)))
  group_packet range_order o balanced = do
    wanted ← wanted_group o balanced
    others ← other_groups o (range_order balanced)
    let groups = wanted ++ others
    if length groups == 0
        then ok none
        else (do packet ← or_fail (assets.new_packet groups) bad_packet; ok (some packet))

  unfoldable pub build_fulfill_asset_packet :
      (Transfers → Transfers)
      → Vtxo
      → List Vtxo
      → Offer A K
      → Result AssetError (Option (List (AssetGroup A)))
  build_fulfill_asset_packet range_order swap takers o = do
    registered ← register_assets 0 swap.assets []
    transfers ← register_takers 0 takers registered
    if length transfers == 0 then ok none else (do
      routed ← route_wanted o transfers
      balanced ← route_change routed
      group_packet range_order o balanced)
