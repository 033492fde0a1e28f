-- ===== src/Interface/Handler/Codes.antt =====
-- The status codes of UpdatePair.
use bancod.Prelude.{◌≡◌, refl, ◌↔◌, false, List, Option, some, Bytes, IsU64, Result, ok, err}
use bancod.Banco.Pair.{Pair}
use bancod.Database.Pairs.{BancoPair, duplicate_pair, pair_not_found, has_row}
use bancod.Application.Pairs.{
  AssetAnswer, ServiceError, store_failed, bad_format, name_required, bad_min_amount,
  bad_max_amount, min_above_max, price_feed_required, base_failed, quote_failed, resolve_decimals,
  validate_pair, update_pair,
}
use bancod.Application.Pairs.Missing.{update_pair-missing_iff}
use bancod.Interface.Handler.{
  PairInfo, not_found, proto_to_domain, with_code, update_code, handle_update_pair,
}

with_code-not_found :
    (r : Result ServiceError (List BancoPair))
    → (with_code update_code r ≡ err not_found) ↔ (r ≡ err (store_failed pair_not_found))
unfolding with_code update_code
with_code-not_found (ok b) = (λ e. absurd cc, λ e. absurd cc)
with_code-not_found (err (store_failed pair_not_found)) = (λ e. refl, λ e. refl)
with_code-not_found (err (store_failed duplicate_pair)) = (λ e. absurd cc, λ e. absurd cc)
with_code-not_found (err bad_format) = (λ e. absurd cc, λ e. absurd cc)
with_code-not_found (err name_required) = (λ e. absurd cc, λ e. absurd cc)
with_code-not_found (err bad_min_amount) = (λ e. absurd cc, λ e. absurd cc)
with_code-not_found (err bad_max_amount) = (λ e. absurd cc, λ e. absurd cc)
with_code-not_found (err min_above_max) = (λ e. absurd cc, λ e. absurd cc)
with_code-not_found (err price_feed_required) = (λ e. absurd cc, λ e. absurd cc)
with_code-not_found (err (base_failed x)) = (λ e. absurd cc, λ e. absurd cc)
with_code-not_found (err (quote_failed x)) = (λ e. absurd cc, λ e. absurd cc)

-- UpdatePair answers NotFound exactly where the pair of the request has decimals and is valid, and
-- no stored pair has its name: any other failure is another code. The amounts are uint64.
pub handle_update_pair-not_found_iff :
    (indexer : Option (Bytes → AssetAnswer)) (info : PairInfo) (rows : List BancoPair)
    → IsU64 info.min_amount
    → IsU64 info.max_amount
    → (handle_update_pair indexer (some info) rows ≡ err not_found) ↔ (
        (q : Pair) × (resolve_decimals indexer (proto_to_domain info) ≡ ok q)
        × (validate_pair q ≡ ok tt)
        × (has_row info.pair rows ≡ false))
unfolding handle_update_pair proto_to_domain
handle_update_pair-not_found_iff indexer info rows hmin hmax =
    let (to, from) = with_code-not_found (update_pair indexer (proto_to_domain info) rows) in
    let (to', from') =
      update_pair-missing_iff indexer (proto_to_domain info) rows
        (record { min_amount = hmin; max_amount = hmax }) in
    (λ e. to' (to e), λ m. from (from' m))
