-- ===== src/Application/Pairs/Spec.antt =====
-- What the requests on pairs are to do, with the stored pairs as a map from names.
use bancod.Prelude.{
  List, [], ◌∷◌, Option, none, some, if◌then◌else◌, Bytes, bytes_equal, Result, ok, err, ◌>>=◌,
  ◌>>◌,
}
use bancod.Banco.Pair.{Pair}
use bancod.Database.Pairs.{BancoPair, list}
use bancod.Application.Pairs.{
  AssetAnswer, ServiceError, resolve_decimals, validate_pair, is_empty, is_some, Command,
  add_command, update_command, remove_command,
}

abbrev pub PairMap : Type 0
PairMap = Bytes → Option Pair

-- The pair of a request, with its decimals, if it is accepted.
unfoldable pub accepted : Option (Bytes → AssetAnswer) → Pair → Result ServiceError Pair
accepted indexer p = do q ← resolve_decimals indexer p; validate_pair q; ok q

unfoldable pub put : Pair → PairMap → PairMap
put q m name = if bytes_equal q.pair name then some q else m name

unfoldable pub spec_add : Result ServiceError Pair → PairMap → PairMap
spec_add (err e) m = m
spec_add (ok q) m = if is_some (m q.pair) then m else put q m

unfoldable pub spec_update : Result ServiceError Pair → PairMap → PairMap
spec_update (err e) m = m
spec_update (ok q) m = if is_some (m q.pair) then put q m else m

unfoldable pub drop_name : Bytes → PairMap → PairMap
drop_name other m name = if bytes_equal other name then none else m name

unfoldable pub spec_remove : Bytes → PairMap → PairMap
spec_remove name m = if is_empty name then m else drop_name name m

-- What a request is to do with the map.
unfoldable pub spec_command : Command → PairMap → PairMap
spec_command (add_command indexer p) m = spec_add (accepted indexer p) m
spec_command (update_command indexer p) m = spec_update (accepted indexer p) m
spec_command (remove_command name) m = spec_remove name m

unfoldable pub spec_commands : List Command → PairMap → PairMap
spec_commands [] m = m
spec_commands (c ∷ cs) m = spec_commands cs (spec_command c m)

-- The pair of a name, of those that List gives.
unfoldable pub find_pair : Bytes → List Pair → Option Pair
find_pair name [] = none
find_pair name (p ∷ ps) = if bytes_equal p.pair name then some p else find_pair name ps

unfoldable pub view : List BancoPair → PairMap
view rows name = find_pair name (list rows)
