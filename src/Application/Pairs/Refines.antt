-- ===== src/Application/Pairs/Refines.antt =====
-- The table does what the requests are to do with the map of pairs.
use bancod.Prelude.{
  ◌≡◌, refl, ap, subst, fun_ext, ◌∙◌, inl, inr, true, false, Bool-cases, Option-cases, List, [],
  ◌∷◌, ◌++◌, Option, none, some, if◌then◌else◌, Bytes, bytes_equal, bytes_equal_iff, bytes_equal→eq,
  All, Result-cases, ok, err, arith,
}
use bancod.Banco.Pair.{Pair}
use bancod.Database.Pairs.{BancoPair, to_domain_pair, has_row, add, update, list}
use bancod.Database.Pairs.Table.{
  IsWide, list-add, list-update, list-remove, replace_pair, without_name,
}
use bancod.Application.Pairs.{
  AssetAnswer, ServiceError, store_failed, resolve_decimals, validate_pair, wrap_error, is_empty,
  is_some, add_pair, update_pair, remove_pair, Command, add_command, update_command, remove_command,
  kept, run_command, run_commands,
}
use bancod.Application.Pairs.Valid.{IsRequest, resolve_decimals-IsWide}
use bancod.Application.Pairs.Stored.{IsCommand}
use bancod.Application.Pairs.Spec.{
  accepted, put, spec_add, spec_update, drop_name, spec_remove, spec_command, spec_commands,
  find_pair, view,
}

find_pair-append :
    (name : Bytes) (ps : List Pair) (q : Pair)
    → find_pair q.pair ps ≡ none
    → find_pair name (ps ++ q ∷ [])
      ≡ (if bytes_equal q.pair name then some q else find_pair name ps)
unfolding find_pair
find_pair-append name [] q h = refl
find_pair-append name (p ∷ ps) q h = ground (
  arith,
  bytes_equal_iff p.pair name,
  bytes_equal_iff q.pair name,
  bytes_equal_iff p.pair q.pair,
  find_pair-append name ps q,
)

find_pair-replace :
    (name : Bytes) (ps : List Pair) (q : Pair)
    → find_pair name (replace_pair q ps) ≡ (
        if bytes_equal q.pair name
        then (if is_some (find_pair name ps) then some q else none)
        else find_pair name ps)
unfolding find_pair
find_pair-replace name [] q = ground arith
find_pair-replace name (p ∷ ps) q = ground (
  arith,
  bytes_equal_iff p.pair name,
  bytes_equal_iff q.pair name,
  bytes_equal_iff p.pair q.pair,
  find_pair-replace name ps q,
)

find_pair-without :
    (name other : Bytes) (ps : List Pair)
    → find_pair name (without_name other ps)
      ≡ (if bytes_equal other name then none else find_pair name ps)
unfolding find_pair
find_pair-without name other [] = ground arith
find_pair-without name other (p ∷ ps) = ground (
  arith,
  bytes_equal_iff p.pair name,
  bytes_equal_iff other name,
  bytes_equal_iff p.pair other,
  find_pair-without name other ps,
)

has_row-view : (name : Bytes) (rows : List BancoPair) → is_some (view rows name) ≡ has_row name rows
unfolding view find_pair has_row list to_domain_pair
has_row-view name [] = refl
has_row-view name (r ∷ rows) = ground (arith, has_row-view name rows)

view-none :
    (name : Bytes) (rows : List BancoPair) → has_row name rows ≡ false → view rows name ≡ none
view-none name rows h = elim (Option-cases (view rows name)) [
  | inl missing ↦ missing
  | inr (p, there) ↦ let e = ap is_some there in let e' = has_row-view name rows in absurd cc
]

no_add :
    (rows : List BancoPair) (e : ServiceError)
    → view (kept rows (err e)) ≡ spec_add (err e) (view rows)
unfolding kept spec_add
no_add rows e = refl

no_update :
    (rows : List BancoPair) (e : ServiceError)
    → view (kept rows (err e)) ≡ spec_update (err e) (view rows)
unfolding kept spec_update
no_update rows e = refl

view-add :
    (q : Pair) (rows : List BancoPair)
    → IsWide q
    → view (kept rows (wrap_error store_failed (add q rows))) ≡ spec_add (ok q) (view rows)
unfolding kept spec_add put view
view-add q rows wide = elim (list-add q rows wide) [
  | inl (there, e) ↦ rw (e, has_row-view q.pair rows, there) refl
  | inr (free, (rows', e, shown)) ↦
      rw (e, has_row-view q.pair rows, free)
        (fun_ext (λ name.
          ap (find_pair name) shown
          ∙ find_pair-append name (list rows) q (view-none q.pair rows free)))
]

view-replace :
    (q : Pair) (rows : List BancoPair) (name : Bytes)
    → has_row q.pair rows ≡ true
    → find_pair name (replace_pair q (list rows)) ≡ put q (view rows) name
unfolding put view
view-replace q rows name there = elim (Bool-cases (bytes_equal q.pair name)) [
  | inl same ↦
      let known =
        subst (λ n. is_some (view rows n) ≡ true) (bytes_equal→eq q.pair name same)
          (has_row-view q.pair rows ∙ there) in
      find_pair-replace name (list rows) q ∙ rw (same, known) refl
  | inr other ↦ find_pair-replace name (list rows) q ∙ rw (other) refl
]

view-update :
    (q : Pair) (rows : List BancoPair)
    → IsWide q
    → view (kept rows (wrap_error store_failed (update q rows))) ≡ spec_update (ok q) (view rows)
unfolding kept spec_update view put
view-update q rows wide = elim (list-update q rows wide) [
  | inl (free, e) ↦ rw (e, has_row-view q.pair rows, free) refl
  | inr (there, (rows', e, shown)) ↦
      rw (e, has_row-view q.pair rows, there)
        (fun_ext (λ name. ap (find_pair name) shown ∙ view-replace q rows name there))
]

view-remove :
    (name : Bytes) (rows : List BancoPair)
    → view (kept rows (remove_pair name rows)) ≡ spec_remove name (view rows)
unfolding kept remove_pair spec_remove drop_name view
view-remove name rows = elim (Bool-cases (is_empty name)) [
  | inl empty ↦ rw empty refl
  | inr named ↦ rw named (
      fun_ext
        (λ n. ap (find_pair n) (list-remove name rows) ∙ find_pair-without n name (list rows)))
]

-- A request is accepted or refused before the table is read.
view-add_pair :
    (indexer : Option (Bytes → AssetAnswer)) (p : Pair) (rows : List BancoPair)
    → IsRequest p
    → view (kept rows (add_pair indexer p rows)) ≡ spec_add (accepted indexer p) (view rows)
unfolding add_pair accepted
view-add_pair indexer p rows h = elim (Result-cases (resolve_decimals indexer p)) [
  | inr (e, failed) ↦ rw failed (no_add rows e)
  | inl (q, resolved) ↦ elim (Result-cases (validate_pair q)) [
    | inr (e, failed) ↦ rw (resolved, failed) (no_add rows e)
    | inl (u, valid) ↦
        rw (resolved, valid) (view-add q rows (resolve_decimals-IsWide indexer p q h resolved))
  ]
]

view-update_pair :
    (indexer : Option (Bytes → AssetAnswer)) (p : Pair) (rows : List BancoPair)
    → IsRequest p
    → view (kept rows (update_pair indexer p rows)) ≡ spec_update (accepted indexer p) (view rows)
unfolding update_pair accepted
view-update_pair indexer p rows h = elim (Result-cases (resolve_decimals indexer p)) [
  | inr (e, failed) ↦ rw failed (no_update rows e)
  | inl (q, resolved) ↦ elim (Result-cases (validate_pair q)) [
    | inr (e, failed) ↦ rw (resolved, failed) (no_update rows e)
    | inl (u, valid) ↦
        rw (resolved, valid) (view-update q rows (resolve_decimals-IsWide indexer p q h resolved))
  ]
]

view-run_command :
    (c : Command) (rows : List BancoPair)
    → IsCommand c
    → view (run_command c rows) ≡ spec_command c (view rows)
unfolding run_command spec_command
view-run_command (add_command indexer p) rows h = view-add_pair indexer p rows h
view-run_command (update_command indexer p) rows h = view-update_pair indexer p rows h
view-run_command (remove_command name) rows h = view-remove name rows

-- The table implements a map from names to pairs: whatever requests are served, with uint64
-- amounts, what List shows under each name is what the requests make of the map of before.
pub run_commands-refines :
    (cs : List Command) (rows : List BancoPair)
    → All IsCommand cs
    → view (run_commands cs rows) ≡ spec_commands cs (view rows)
unfolding run_commands spec_commands
run_commands-refines [] rows h = refl
run_commands-refines (c ∷ cs) rows (hc, h) =
    run_commands-refines cs (run_command c rows) h
    ∙ ap (spec_commands cs) (view-run_command c rows hc)
