-- ===== src/Application/Pairs/Missing.antt =====
-- When UpdatePair finds no pair of the name.
use bancod.Prelude.{
  ◌≡◌, refl, sym, ◌∙◌, ap, subst, ◌↔◌, inl, inr, true, false, List, Option, Bytes, Option-cases, ok,
  err, or_fail, >>=-eq-ok, ok-injective, Result-cases, arith,
}
use bancod.Banco.Pair.{Pair, split_pair}
use bancod.Database.Pairs.{BancoPair, PairsError, pair_not_found, has_row}
use bancod.Database.Pairs.Table.{list-update}
use bancod.Application.Pairs.{
  AssetAnswer, store_failed, asset_decimals, resolve_decimals, validate_pair, wrap_error,
  update_pair,
}
use bancod.Application.Pairs.Valid.{IsRequest, resolve_decimals-IsWide}

-- The errors of the first two steps are not those of the store.
resolve_decimals-ne-store_failed :
    (indexer : Option (Bytes → AssetAnswer)) (p : Pair) (x : PairsError)
    → resolve_decimals indexer p ≡ err (store_failed x)
    → ⊥
unfolding resolve_decimals
resolve_decimals-ne-store_failed indexer p x e = elim (Option-cases (split_pair p.pair)) [
  | inl bad ↦ let e' = rw bad at e in cc
  | inr (sides, good) ↦ elim (Result-cases (asset_decimals indexer sides.0)) [
    | inr (y, failed) ↦ let e' = rw (good, failed) at e in cc
    | inl (b, base) ↦ elim (Result-cases (asset_decimals indexer sides.1)) [
      | inr (y, failed) ↦ let e' = rw (good, base, failed) at e in cc
      | inl (c, quote) ↦ let e' = rw (good, base, quote) at e in cc
    ]
  ]
]

validate_pair-ne-store_failed :
    (p : Pair) (x : PairsError) → validate_pair p ≡ err (store_failed x) → ⊥
unfolding validate_pair
validate_pair-ne-store_failed p x e = ground arith

-- The name is kept.
resolve_decimals-pair :
    (indexer : Option (Bytes → AssetAnswer)) (p q : Pair)
    → resolve_decimals indexer p ≡ ok q
    → q.pair ≡ p.pair
unfolding resolve_decimals
resolve_decimals-pair indexer p q e =
    let (sides, g₁, f₁) = >>=-eq-ok (or_fail (split_pair p.pair) _) _ e in
    let (b, g₂, f₂) = >>=-eq-ok (wrap_error _ (asset_decimals indexer sides.0)) _ f₁ in
    let (c, g₃, f₃) = >>=-eq-ok (wrap_error _ (asset_decimals indexer sides.1)) _ f₂ in
    ap (λ (r : Pair). r.pair) (sym (ok-injective _ _ f₃))

pub update_pair-missing_iff :
    (indexer : Option (Bytes → AssetAnswer)) (p : Pair) (rows : List BancoPair)
    → IsRequest p
    → (update_pair indexer p rows ≡ err (store_failed pair_not_found)) ↔ (
        (q : Pair) × (resolve_decimals indexer p ≡ ok q)
        × (validate_pair q ≡ ok tt)
        × (has_row p.pair rows ≡ false))
unfolding update_pair
update_pair-missing_iff indexer p rows h = elim (Result-cases (resolve_decimals indexer p)) [
  | inr (x, failed) ↦ (
    λ e.
        let e' = rw failed at e in
        let same : x ≡ store_failed pair_not_found = cc in
        absurd (
          resolve_decimals-ne-store_failed indexer p pair_not_found
            (subst (λ y. resolve_decimals indexer p ≡ err y) same failed)),
    λ (q, r, v, m). absurd (cc (failed, r)),
  )
  | inl (q, resolved) ↦ elim (Result-cases (validate_pair q)) [
    | inr (x, invalid) ↦ (
      λ e.
          let e' = rw (resolved, invalid) at e in
          let same : x ≡ store_failed pair_not_found = cc in
          absurd (
            validate_pair-ne-store_failed q pair_not_found
              (subst (λ y. validate_pair q ≡ err y) same invalid)),
      λ (q', r, v, m).
          let v' = subst (λ z. validate_pair z ≡ ok tt) (ok-injective _ _ (sym r ∙ resolved)) v in
          absurd (cc (invalid, v')),
    )
    | inl (u, valid) ↦
        let name = resolve_decimals-pair indexer p q resolved in
        elim (list-update q rows (resolve_decimals-IsWide indexer p q h resolved)) [
          | inl (free, failed) ↦ (
            λ e. (q, resolved, valid, subst (λ n. has_row n rows ≡ false) name free),
            λ m. rw (resolved, valid, failed) refl,
          )
          | inr (there, (rows', done, shown)) ↦ (
            λ e. let e' = rw (resolved, valid, done) at e in absurd cc,
            λ (q', r, v, m).
                let there' = subst (λ n. has_row n rows ≡ true) name there in
                absurd (cc (there', m)),
          )
        ]
  ]
]
