-- ===== src/Application/Pairs/Valid.antt =====
-- The pairs that the service has stored.
use bancod.Prelude.{
  ◌≡◌, ◌≢◌, ◌≤◌, ◌<◌, refl, sym, ◌∙◌, ap, subst, inl, inr, Bool, true, false, not, List, [], ◌∷◌,
  Option, leb, ◌==◌, Bytes, bytes_equal, All, All-append, IsU64, Bool-cases, Option-cases, Result,
  ok, err, guard, or_fail, >>=-eq-ok, ok-injective, arith,
}
use bancod.Application.Pairs.Decimals.{asset_decimals-lt}
use bancod.Banco.Pair.{Pair, split_pair}
use bancod.Banco.Pair.Split.{IsNamed}
use bancod.Database.Pairs.{BancoPair, list}
use bancod.Database.Pairs.Table.{IsWide, list-add, list-update, without_name, replace_pair}
use bancod.Application.Pairs.{
  AssetAnswer, ServiceError, asset_decimals, wrap_error, resolve_decimals, validate_pair, is_empty,
  is_some, add_pair, update_pair,
}

-- What validatePair demands of a pair.
pub record IsValid (p : Pair) : Type 0 where
  pub named : IsNamed p
  pub min_positive : 0 < p.min_amount
  pub ordered : p.min_amount ≤ p.max_amount
  pub feed_given : p.price_feed ≢ []

guard-eq-ok : (b : Bool) (x : ServiceError) {u : Unit {0}} → guard b x ≡ ok u → b ≡ true
guard-eq-ok true x e = refl
guard-eq-ok false x e = absurd cc

split_pair-IsNamed : (p : Pair) → is_some (split_pair p.pair) ≡ true → IsNamed p
split_pair-IsNamed p h = elim (Option-cases (split_pair p.pair)) [
  | inl g ↦ let h' = rw g at h in absurd cc
  | inr ((a, b), g) ↦ (a, b, g)
]

validate_pair-IsValid : (p : Pair) (u : Unit {0}) → validate_pair p ≡ ok u → IsValid p
unfolding validate_pair
validate_pair-IsValid p u e =
    let (t₁, g₁, f₁) = >>=-eq-ok (guard (not (is_empty p.pair)) _) _ e in
    let (t₂, g₂, f₂) = >>=-eq-ok (guard (is_some (split_pair p.pair)) _) _ f₁ in
    let (t₃, g₃, f₃) = >>=-eq-ok (guard (not (p.min_amount == 0)) _) _ f₂ in
    let (t₄, g₄, f₄) = >>=-eq-ok (guard (not (p.max_amount == 0)) _) _ f₃ in
    let (t₅, g₅, f₅) = >>=-eq-ok (guard (leb p.min_amount p.max_amount) _) _ f₄ in
    let positive = guard-eq-ok _ _ g₃ in
    let ordered = guard-eq-ok _ _ g₅ in
    let feed = guard-eq-ok _ _ f₅ in
    record {
      named = split_pair-IsNamed p (guard-eq-ok _ _ g₂);
      min_positive = ground arith;
      ordered = ground arith;
      feed_given = λ z. absurd (cc (ap is_empty z, feed));
    }

wrap_error-eq-ok :
    {E B : Type 0} (f : E → ServiceError) (r : Result E B) (b : B)
    → wrap_error f r ≡ ok b
    → r ≡ ok b
wrap_error-eq-ok f (ok c) b e = cc
wrap_error-eq-ok f (err x) b e = absurd cc

-- The amounts that a request carries are uint64.
pub record IsRequest (p : Pair) : Type 0 where
  pub min_amount : IsU64 p.min_amount
  pub max_amount : IsU64 p.max_amount

pub resolve_decimals-IsWide :
    (indexer : Option (Bytes → AssetAnswer)) (p q : Pair)
    → IsRequest p
    → resolve_decimals indexer p ≡ ok q
    → IsWide q
unfolding resolve_decimals
resolve_decimals-IsWide indexer p q h e =
    let (sides, g₁, f₁) = >>=-eq-ok (or_fail (split_pair p.pair) _) _ e in
    let (b, g₂, f₂) = >>=-eq-ok (wrap_error _ (asset_decimals indexer sides.0)) _ f₁ in
    let (c, g₃, f₃) = >>=-eq-ok (wrap_error _ (asset_decimals indexer sides.1)) _ f₂ in
    let small_b = asset_decimals-lt indexer _ b (wrap_error-eq-ok _ _ b g₂) in
    let small_c = asset_decimals-lt indexer _ c (wrap_error-eq-ok _ _ c g₃) in
    subst IsWide (ok-injective _ _ f₃) (record {
      min_amount = h.min_amount;
      max_amount = h.max_amount;
      base_decimals = omega arith;
      quote_decimals = omega arith;
    })

All-replace_pair :
    (p : Pair) (ps : List Pair) → IsValid p → All IsValid ps → All IsValid (replace_pair p ps)
All-replace_pair p [] v h = tt
All-replace_pair p (q ∷ ps) v (hq, h) = elim (Bool-cases (bytes_equal q.pair p.pair)) [
  | inl same ↦ rw same (v, All-replace_pair p ps v h)
  | inr other ↦ rw other (hq, All-replace_pair p ps v h)
]

pub All-without_name :
    (name : Bytes) (ps : List Pair) → All IsValid ps → All IsValid (without_name name ps)
All-without_name name [] h = tt
All-without_name name (q ∷ ps) (hq, h) = elim (Bool-cases (bytes_equal q.pair name)) [
  | inl same ↦ rw same (All-without_name name ps h)
  | inr other ↦ rw other (hq, All-without_name name ps h)
]

-- A pair that AddPair or UpdatePair stores is valid, and every operation keeps the stored pairs
-- valid.
pub add_pair-IsValid :
    (indexer : Option (Bytes → AssetAnswer)) (p : Pair) (rows rows' : List BancoPair)
    → IsRequest p
    → All IsValid (list rows)
    → add_pair indexer p rows ≡ ok rows'
    → All IsValid (list rows')
unfolding add_pair
add_pair-IsValid indexer p rows rows' h v e =
    let (q, g₁, f₁) = >>=-eq-ok (resolve_decimals indexer p) _ e in
    let (u, g₂, f₂) = >>=-eq-ok (validate_pair q) _ f₁ in
    let valid = validate_pair-IsValid q u g₂ in
    elim (list-add q rows (resolve_decimals-IsWide indexer p q h g₁)) [
      | inl (there, failed) ↦ let e' = wrap_error-eq-ok _ _ rows' f₂ in absurd cc
      | inr (free, (rows'', added, shown)) ↦
          let same = ok-injective _ _ (sym added ∙ wrap_error-eq-ok _ _ rows' f₂) in
          subst (λ r. All IsValid (list r)) same
            (subst (λ ps. All IsValid ps) (sym shown)
              (All-append IsValid (list rows) (q ∷ []) v (valid, tt)))
    ]

pub update_pair-IsValid :
    (indexer : Option (Bytes → AssetAnswer)) (p : Pair) (rows rows' : List BancoPair)
    → IsRequest p
    → All IsValid (list rows)
    → update_pair indexer p rows ≡ ok rows'
    → All IsValid (list rows')
unfolding update_pair
update_pair-IsValid indexer p rows rows' h v e =
    let (q, g₁, f₁) = >>=-eq-ok (resolve_decimals indexer p) _ e in
    let (u, g₂, f₂) = >>=-eq-ok (validate_pair q) _ f₁ in
    let valid = validate_pair-IsValid q u g₂ in
    elim (list-update q rows (resolve_decimals-IsWide indexer p q h g₁)) [
      | inl (missing, failed) ↦ let e' = wrap_error-eq-ok _ _ rows' f₂ in absurd cc
      | inr (there, (rows'', done, shown)) ↦
          let same = ok-injective _ _ (sym done ∙ wrap_error-eq-ok _ _ rows' f₂) in
          subst (λ r. All IsValid (list r)) same
            (subst (λ ps. All IsValid ps) (sym shown) (All-replace_pair q (list rows) valid v))
    ]
