-- ===== src/Contract/Assets/Register.antt =====
-- The asset inputs that buildFulfillAssetPacket registers, and sums of amounts.
use bancod.Prelude.{
  ℕ, ◌+◌, ◌%◌, ◌^◌, ◌≡◌, refl, subst, inl, inr, List, [], ◌∷◌, ◌++◌, if◌then◌else◌, Bytes,
  bytes_equal, bytes_equal→eq, IsU64, All, Bool-cases, ok, >>=-eq-ok, ok-injective, or_fail,
  or_fail-eq-ok, arith,
}
use bancod.Contract.ArkLib.{ArkLib}
use bancod.Contract.Assets.{
  Asset, Vtxo, AssetInput, AssetOutput, AssetLib, AssetLaws, AssetTransfer, Transfers, bad_input,
  total_in, total_out, add_input, register_assets, register_takers,
}

-- The sums as plain numbers.
abbrev pub sum_in : List AssetInput → ℕ
sum_in [] = 0
sum_in (x ∷ xs) = x.amount + sum_in xs

abbrev pub sum_out : List AssetOutput → ℕ
sum_out [] = 0
sum_out (x ∷ xs) = x.amount + sum_out xs

-- How much of an asset a list of assets, of VTXOs or of transfers holds.
abbrev pub held_assets : Bytes → List Asset → ℕ
held_assets id [] = 0
held_assets id (a ∷ more) =
    (if bytes_equal a.asset_id id then a.amount else 0) + held_assets id more

abbrev pub held : Bytes → List Vtxo → ℕ
held id [] = 0
held id (v ∷ vs) = held_assets id v.assets + held id vs

abbrev pub registered : Bytes → Transfers → ℕ
registered id [] = 0
registered id ((k, t) ∷ ts) = (if bytes_equal k id then sum_in t.inputs else 0) + registered id ts

pub total_in-sum_in :
    (acc : ℕ) (xs : List AssetInput) → IsU64 (acc + sum_in xs) → total_in acc xs ≡ acc + sum_in xs
unfolding total_in
total_in-sum_in acc [] h = omega arith
total_in-sum_in acc (x ∷ xs) h = ground (arith, total_in-sum_in ((acc + x.amount) % 2 ^ 64) xs)

pub total_out-sum_out :
    (acc : ℕ) (xs : List AssetOutput)
    → IsU64 (acc + sum_out xs)
    → total_out acc xs ≡ acc + sum_out xs
unfolding total_out
total_out-sum_out acc [] h = omega arith
total_out-sum_out acc (x ∷ xs) h = ground (arith, total_out-sum_out ((acc + x.amount) % 2 ^ 64) xs)

sum_in-append : (xs ys : List AssetInput) → sum_in (xs ++ ys) ≡ sum_in xs + sum_in ys
sum_in-append [] ys = omega arith
sum_in-append (x ∷ xs) ys = omega (arith, sum_in-append xs ys)

pub sum_out-append : (xs ys : List AssetOutput) → sum_out (xs ++ ys) ≡ sum_out xs + sum_out ys
sum_out-append [] ys = omega arith
sum_out-append (x ∷ xs) ys = omega (arith, sum_out-append xs ys)

registered-add_input :
    (id k : Bytes) (x : AssetInput) (ts : Transfers)
    → registered id (add_input k x ts)
      ≡ registered id ts + (if bytes_equal k id then x.amount else 0)
unfolding add_input
registered-add_input id k x [] = ground arith
registered-add_input id k x ((j, t) ∷ ts) = elim (Bool-cases (bytes_equal j k)) [
  | inl same ↦ rw (same, bytes_equal→eq j k same) (ground (arith, sum_in-append t.inputs (x ∷ [])))
  | inr other ↦ rw other (omega (arith, registered-add_input id k x ts))
]

-- No entry has outputs before the wanted asset is routed.
abbrev pub IsUnrouted : Bytes × AssetTransfer → Type 0
IsUnrouted e = e.1.outputs ≡ []

add_input-IsUnrouted :
    (k : Bytes) (x : AssetInput) (ts : Transfers)
    → All IsUnrouted ts
    → All IsUnrouted (add_input k x ts)
unfolding add_input
add_input-IsUnrouted k x [] h = (refl, tt)
add_input-IsUnrouted k x ((j, t) ∷ ts) h = elim (Bool-cases (bytes_equal j k)) [
  | inl same ↦ rw same h
  | inr other ↦ rw other (h.0, add_input-IsUnrouted k x ts h.1)
]

module _ {A K : Type 0} (lib : ArkLib A K) (assets : AssetLib A) (laws : AssetLaws assets) where
  pub register_assets_lem :
      (vin : ℕ) (more : List Asset) (ts ts' : Transfers)
      → All IsUnrouted ts
      → register_assets lib assets vin more ts ≡ ok ts'
      → All IsUnrouted ts'
        × ((id : Bytes) → registered id ts' ≡ registered id ts + held_assets id more)
  unfolding register_assets
  register_assets_lem vin [] ts ts' h e =
      (subst (All IsUnrouted) (ok-injective _ _ e) h, λ id. rw (← ok-injective _ _ e) (omega arith))
  register_assets_lem vin (a ∷ more) ts ts' h e =
      let (x, made, rest) =
        >>=-eq-ok (or_fail (assets.new_asset_input vin a.amount) bad_input) _ e in
      let kept = laws.input_kept vin a.amount x (or_fail-eq-ok _ bad_input x made) in
      let (none_out, sums) =
        register_assets_lem vin more (add_input a.asset_id x ts) ts'
          (add_input-IsUnrouted a.asset_id x ts h) rest in
      (
        none_out,
        λ id. omega (arith, sums id, registered-add_input id a.asset_id x ts, same id x kept),
      )
    where
      same :
          (id : Bytes) (x : AssetInput)
          → x ≡ record { vin = vin; amount = a.amount }
          → (if bytes_equal a.asset_id id then x.amount else 0)
            ≡ (if bytes_equal a.asset_id id then a.amount else 0)
      same id x kept = rw kept

  pub register_takers_lem :
      (i : ℕ) (vs : List Vtxo) (ts ts' : Transfers)
      → All IsUnrouted ts
      → register_takers lib assets i vs ts ≡ ok ts'
      → All IsUnrouted ts' × ((id : Bytes) → registered id ts' ≡ registered id ts + held id vs)
  unfolding register_takers
  register_takers_lem i [] ts ts' h e =
      (subst (All IsUnrouted) (ok-injective _ _ e) h, λ id. rw (← ok-injective _ _ e) (omega arith))
  register_takers_lem i (v ∷ vs) ts ts' h e =
      let (mid, one, rest) =
        >>=-eq-ok (register_assets lib assets ((i + 1) % 2 ^ 16) v.assets ts) _ e in
      let (h', sums) = register_assets_lem ((i + 1) % 2 ^ 16) v.assets ts mid h one in
      let (h'', sums') = register_takers_lem (i + 1) vs mid ts' h' rest in
      (h'', λ id. omega (arith, sums id, sums' id))
