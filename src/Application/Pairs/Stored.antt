-- ===== src/Application/Pairs/Stored.antt =====
-- The pairs that any sequence of requests leaves in the table.
use bancod.Prelude.{
  ◌≡◌, refl, sym, subst, List, [], ◌∷◌, none, All, All-imp, Result, ok, err, >>=-eq-ok, guard,
  ok-injective, not,
}
use bancod.Contract.ArkLib.{ArkLib}
use bancod.Banco.Pair.Split.{IsNamed}
use bancod.Banco.Offer.{FundedOffer}
use bancod.Banco.Plugin.{find_matching_pair}
use bancod.Banco.Plugin.Matching.{find_matching_pair-want_btc}
use bancod.Database.Pairs.{BancoPair, list}
use bancod.Database.Pairs.Table.{list-remove, list-nil}
use bancod.Application.Pairs.{
  Command, add_command, update_command, remove_command, kept, run_command, run_commands,
  remove_pair, is_empty, ServiceError,
}
use bancod.Application.Pairs.Valid.{
  IsValid, IsRequest, add_pair-IsValid, update_pair-IsValid, All-without_name,
}

-- A request's amounts are uint64.
abbrev pub IsCommand : Command → Type 0
IsCommand (add_command indexer p) = IsRequest p
IsCommand (update_command indexer p) = IsRequest p
IsCommand (remove_command name) = Unit

kept-All :
    (rows : List BancoPair) (r : Result ServiceError (List BancoPair))
    → All IsValid (list rows)
    → ((rows' : List BancoPair) → r ≡ ok rows' → All IsValid (list rows'))
    → All IsValid (list (kept rows r))
unfolding kept
kept-All rows (ok rows') v h = h rows' refl
kept-All rows (err e) v h = v

run_command-IsValid :
    (c : Command) (rows : List BancoPair)
    → IsCommand c
    → All IsValid (list rows)
    → All IsValid (list (run_command c rows))
unfolding run_command remove_pair
run_command-IsValid (add_command indexer p) rows h v =
    kept-All rows _ v (λ rows' e. add_pair-IsValid indexer p rows rows' h v e)
run_command-IsValid (update_command indexer p) rows h v =
    kept-All rows _ v (λ rows' e. update_pair-IsValid indexer p rows rows' h v e)
run_command-IsValid (remove_command name) rows h v = kept-All rows _ v (λ rows' e.
    let (u, g, f) = >>=-eq-ok (guard (not (is_empty name)) _) _ e in
    subst (λ r. All IsValid (list r)) (ok-injective _ _ f)
      (subst (λ ps. All IsValid ps) (sym (list-remove name rows))
        (All-without_name name (list rows) v)))

run_commands-All :
    (cs : List Command) (rows : List BancoPair)
    → All IsCommand cs
    → All IsValid (list rows)
    → All IsValid (list (run_commands cs rows))
unfolding run_commands
run_commands-All [] rows h v = v
run_commands-All (c ∷ cs) rows (hc, h) v =
    run_commands-All cs (run_command c rows) h (run_command-IsValid c rows hc v)

-- Whatever requests have been served from an empty table on, with uint64 amounts, every pair that
-- is stored names two sides that are not empty, has bounds with 0 < min <= max, and a price feed.
pub run_commands-IsValid :
    (cs : List Command) → All IsCommand cs → All IsValid (list (run_commands cs []))
run_commands-IsValid cs h =
    run_commands-All cs [] h (subst (λ ps. All IsValid ps) (sym list-nil) tt)

-- Whatever requests have been served from an empty table on, with uint64 amounts, no stored pair
-- is matched with an offer that wants BTC.
pub run_commands-want_btc :
    {A K : Type 0} (lib : ArkLib A K) (cs : List Command) (o : FundedOffer A K)
    → All IsCommand cs
    → o.offer.want_asset ≡ none
    → find_matching_pair lib (list (run_commands cs [])) o ≡ none
run_commands-want_btc lib cs o h w =
    find_matching_pair-want_btc lib (list (run_commands cs [])) o w (
      All-imp IsValid IsNamed (list (run_commands cs [])) (λ p v. v.named)
        (run_commands-IsValid cs h))
