-- ===== src/Contract/Assets/Balance.antt =====
-- Routing of the wanted asset and of the change in buildFulfillAssetPacket.
use mathlib.Core.Option.{some-injective}
use bancod.Prelude.{
  All-imp, ◌+◌, ◌-◌, ◌≡◌, refl, ap, subst, ◌≤◌, ◌⊎◌, inl, inr, true, false, [], ◌∷◌, ◌++◌, some,
  ltb, Bytes, bytes_equal, bytes_equal_refl, bytes_equal→eq, IsU64, All, Bool-cases, Option-cases,
  ok, >>=-eq-ok, ok-injective, arith,
}
use bancod.Contract.ArkLib.{ArkLib}
use bancod.Contract.Offer.{Offer}
use bancod.Contract.Assets.Register.{
  sum_in, sum_out, registered, total_in-sum_in, total_out-sum_out, sum_out-append, IsUnrouted,
}
use bancod.Contract.Assets.{
  AssetLib, AssetLaws, AssetTransfer, Transfers, total_in, total_out, add_output, find_transfer,
  route_wanted, give_change, route_change, is_wanted,
}

module _ {A K : Type 0} (lib : ArkLib A K) (assets : AssetLib A) (laws : AssetLaws assets) where
  -- An entry after the wanted asset is routed.
  abbrev pub IsRouted : Offer A K → Bytes × AssetTransfer → Type 0
  IsRouted o e =
      (e.1.outputs ≡ [])
      ⊎ ((is_wanted lib assets o e.0 ≡ true)
          × (e.1.outputs ≡ record { vout = 0; amount = o.want_amount } ∷ []))

  add_output-IsRouted :
      (o : Offer A K) (id : Bytes) (ts ts' : Transfers)
      → is_wanted lib assets o id ≡ true
      → All IsUnrouted ts
      → add_output id (record { vout = 0; amount = o.want_amount }) ts ≡ some ts'
      → All (IsRouted o) ts' × ((j : Bytes) → registered j ts' ≡ registered j ts)
  unfolding add_output
  add_output-IsRouted o id [] ts' w h e = cc
  add_output-IsRouted o id ((k, t) ∷ ts) ts' w h e = elim (Bool-cases (bytes_equal k id)) [
    | inl same ↦
        let whole = rw same at e in
        subst
          (λ us. All (IsRouted o) us × ((j : Bytes) → registered j us ≡ registered j ((k, t) ∷ ts)))
          (some-injective _ _ whole)
          (
            (
              inr (rw (bytes_equal→eq k id same) w, rw h.0),
              All-imp IsUnrouted (IsRouted o) ts (λ u none_out. inl none_out) h.1,
            ),
            λ j. refl,
          )
    | inr other ↦
        elim (Option-cases (add_output id (record { vout = 0; amount = o.want_amount }) ts)) [
          | inl missing ↦ absurd (ground arith)
          | inr (us, found) ↦
              let whole : ((k, t) ∷ us) ≡ ts' = ground arith in
              let (routed, sums) = add_output-IsRouted o id ts us w h.1 found in
              subst
                (λ us.
                  All (IsRouted o) us
                  × ((j : Bytes) → registered j us ≡ registered j ((k, t) ∷ ts)))
                whole ((inl h.0, routed), λ j. omega (arith, sums j))
        ]
  ]

  pub route_wanted-IsRouted :
      (o : Offer A K) (ts ts' : Transfers)
      → All IsUnrouted ts
      → route_wanted lib assets o ts ≡ ok ts'
      → All (IsRouted o) ts' × ((j : Bytes) → registered j ts' ≡ registered j ts)
  unfolding route_wanted
  route_wanted-IsRouted o ts ts' h e = elim (Option-cases o.want_asset) [
    | inl btc ↦
        let same : ts ≡ ts' = ground arith in
        subst (λ us. All (IsRouted o) us × ((j : Bytes) → registered j us ≡ registered j ts)) same
          (All-imp IsUnrouted (IsRouted o) ts (λ u none_out. inl none_out) h, λ j. refl)
    | inr (a, wanted) ↦ elim (Option-cases (find_transfer (lib.asset_string a) ts)) [
      | inl missing ↦ absurd (ground arith)
      | inr (t, found) ↦ elim (Option-cases (assets.new_asset_output 0 o.want_amount)) [
        | inl refused ↦ absurd (ground arith)
        | inr (x, made) ↦
            let kept = laws.output_kept 0 o.want_amount x made in
            let added : add_output (lib.asset_string a) x ts ≡ some ts' = ground arith in
            add_output-IsRouted o (lib.asset_string a) ts ts'
              (rw wanted (bytes_equal_refl (lib.asset_string a))) h (rw kept at added)
      ]
    ]
  ]

  -- An entry after the change is routed: nothing is lost, and nothing is created but what the offer
  -- wants in excess of the inputs.
  abbrev pub IsSettled : Offer A K → Bytes × AssetTransfer → Type 0
  IsSettled o e =
      (sum_in e.1.inputs ≤ sum_out e.1.outputs)
      × (is_wanted lib assets o e.0 ≡ false → sum_in e.1.inputs ≡ sum_out e.1.outputs)
      × (o.want_amount ≤ sum_in e.1.inputs → sum_in e.1.inputs ≡ sum_out e.1.outputs)

  -- give_change fills the outputs up to the inputs, where they are less.
  pub give_change_sums :
      (t t' : AssetTransfer)
      → IsU64 (sum_in t.inputs)
      → IsU64 (sum_out t.outputs)
      → give_change lib assets t ≡ ok t'
      → (t'.inputs ≡ t.inputs)
        × (sum_out t'.outputs ≡ sum_out t.outputs + (sum_in t.inputs - sum_out t.outputs))
  unfolding give_change
  give_change_sums t t' hi ho e =
      let n = total_in-sum_in 0 t.inputs (omega arith) in
      let m = total_out-sum_out 0 t.outputs (omega arith) in
      let rest = total_in 0 t.inputs - total_out 0 t.outputs in
      elim (Bool-cases (ltb (total_out 0 t.outputs) (total_in 0 t.inputs))) [
        | inl more ↦ elim (Option-cases (assets.new_asset_output 1 rest)) [
          | inl refused ↦ absurd (ground arith)
          | inr (x, made) ↦
              let kept = laws.output_kept 1 rest x made in
              let whole : record t { outputs = t.outputs ++ x ∷ [] } ≡ t' = ground arith in
              ground (arith, sum_out-append t.outputs (x ∷ []))
        ]
        | inr enough ↦ ground arith
      ]

  routed_out :
      (o : Offer A K) (e : Bytes × AssetTransfer)
      → IsRouted o e
      → (is_wanted lib assets o e.0 ≡ false → sum_out e.1.outputs ≡ 0)
        × (sum_out e.1.outputs ≤ o.want_amount)
  routed_out o e (inl none_out) = rw none_out (λ h. refl, omega arith)
  routed_out o e (inr (w, one)) = rw one (λ h. cc, omega arith)

  give_change-IsSettled :
      (o : Offer A K) (k : Bytes) (t t' : AssetTransfer)
      → IsU64 o.want_amount
      → IsU64 (sum_in t.inputs)
      → IsRouted o (k, t)
      → give_change lib assets t ≡ ok t'
      → IsSettled o (k, t')
  give_change-IsSettled o k t t' hw hi r e =
      let (unwanted, few) = routed_out o (k, t) r in
      let (same, sums) = give_change_sums t t' hi (omega arith) e in
      let ins = ap sum_in same in (omega arith, λ h. omega (arith, unwanted h), λ h. omega arith)

  registered_entry :
      (k : Bytes) (t : AssetTransfer) (ts : Transfers)
      → registered k ((k, t) ∷ ts) ≡ sum_in t.inputs + registered k ts
  registered_entry k t ts = rw (bytes_equal_refl k)

  pub route_change-IsSettled :
      (o : Offer A K) (ts ts' : Transfers)
      → IsU64 o.want_amount
      → ((id : Bytes) → IsU64 (registered id ts))
      → All (IsRouted o) ts
      → route_change lib assets ts ≡ ok ts'
      → All (IsSettled o) ts'
  unfolding route_change
  route_change-IsSettled o [] ts' hw hi r e = subst (All (IsSettled o)) (ok-injective _ _ e) tt
  route_change-IsSettled o ((k, t) ∷ ts) ts' hw hi (r, rs) e =
      let (t', changed, next) = >>=-eq-ok (give_change lib assets t) _ e in
      let (us, rest, whole) = >>=-eq-ok (route_change lib assets ts) _ next in
      subst (All (IsSettled o)) (ok-injective _ _ whole) (
        give_change-IsSettled o k t t' hw (omega (arith, hi k, registered_entry k t ts)) r changed,
        route_change-IsSettled o ts us hw (λ id. omega (arith, hi id)) rs rest,
      )
