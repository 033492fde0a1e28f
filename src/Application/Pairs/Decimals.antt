-- ===== src/Application/Pairs/Decimals.antt =====
-- The range of the decimals that the indexer's metadata gives.
use bancod.Prelude.{
  ℕ, zero, suc, ◌^◌, ◌≡◌, ◌<◌, refl, subst, inl, inr, Bool, true, false, List, [], ◌∷◌, Option,
  none, some, ◌==◌, Bytes, text, bytes_equal, Bool-cases, ok, ok-injective, ℤ, pos, negsuc, arith,
}
use bancod.Prelude.Numerals.{in_range, signed, atoi}
use bancod.Application.Pairs.{
  AssetAnswer, get_failed, no_asset, found, Metadata, decimals_of, find_decimals, answer_decimals,
  asset_decimals,
}

-- Decimals are an int.
in_range-lt : (b : Bool) (n k : ℕ) → in_range b n ≡ some (pos k) → k < 2 ^ 63
unfolding in_range
in_range-lt true zero k e = ground arith
in_range-lt true (suc n) k e = ground arith
in_range-lt false n k e = ground arith

signed-lt : (b : Bool) (o : Option ℕ) (k : ℕ) → signed b o ≡ some (pos k) → k < 2 ^ 63
unfolding signed
signed-lt b none k e = absurd cc
signed-lt b (some n) k e = in_range-lt b n k e

atoi-lt : (s : Bytes) (k : ℕ) → atoi s ≡ some (pos k) → k < 2 ^ 63
unfolding atoi
atoi-lt [] k e = absurd cc
atoi-lt (c ∷ s) k e = elim (Bool-cases (c == b'-')) [
  | inl minus ↦ signed-lt true _ k (rw minus at e)
  | inr other ↦ elim (Bool-cases (c == b'+')) [
    | inl plus ↦ signed-lt false _ k (rw (other, plus) at e)
    | inr digit ↦ signed-lt false _ k (rw (other, digit) at e)
  ]
]

decimals_of-lt :
    (o : Option ℤ) (k : ℕ)
    → ((n : ℕ) → o ≡ some (pos n) → n < 2 ^ 63)
    → decimals_of o ≡ ok k
    → k < 2 ^ 63
unfolding decimals_of
decimals_of-lt none k h e = absurd cc
decimals_of-lt (some (pos n)) k h e = subst (λ x. x < 2 ^ 63) (ok-injective _ _ e) (h n refl)
decimals_of-lt (some (negsuc n)) k h e = absurd cc

find_decimals-lt : (mds : List Metadata) (k : ℕ) → find_decimals mds ≡ ok k → k < 2 ^ 63
unfolding find_decimals
find_decimals-lt [] k e = absurd cc
find_decimals-lt (md ∷ mds) k e = elim (Bool-cases (bytes_equal md.key (text "decimals"))) [
  | inl same ↦ decimals_of-lt (atoi md.value) k (atoi-lt md.value) (rw same at e)
  | inr other ↦ find_decimals-lt mds k (rw other at e)
]

answer_decimals-lt : (a : AssetAnswer) (k : ℕ) → answer_decimals a ≡ ok k → k < 2 ^ 63
unfolding answer_decimals
answer_decimals-lt get_failed k e = absurd cc
answer_decimals-lt no_asset k e = absurd cc
answer_decimals-lt (found mds) k e = find_decimals-lt mds k e

pub asset_decimals-lt :
    (indexer : Option (Bytes → AssetAnswer)) (id : Bytes) (k : ℕ)
    → asset_decimals indexer id ≡ ok k
    → k < 2 ^ 63
unfolding asset_decimals
asset_decimals-lt none id k e = elim (Bool-cases (bytes_equal id (text "BTC"))) [
  | inl btc ↦ let e' = rw btc at e in subst (λ x. x < 2 ^ 63) (ok-injective _ _ e') (omega arith)
  | inr other ↦ let e' = rw other at e in absurd cc
]
asset_decimals-lt (some get) id k e = elim (Bool-cases (bytes_equal id (text "BTC"))) [
  | inl btc ↦ let e' = rw btc at e in subst (λ x. x < 2 ^ 63) (ok-injective _ _ e') (omega arith)
  | inr other ↦ answer_decimals-lt (get id) k (rw other at e)
]
