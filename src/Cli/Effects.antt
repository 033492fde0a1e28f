-- ===== src/Cli/Effects.antt =====
-- What the commands on pairs do at the server.
use bancod.Prelude.{
  ℕ, ◌^◌, ◌≡◌, ◌≢◌, ◌↔◌, refl, sym, ap, Bool, true, false, not, List, ◌++◌, Option, none, some,
  take, ltb, ◌==◌, if◌then◌else◌, Bytes, text, IsU64, Result, ok, err, arith,
}
use bancod.Banco.Pair.{Pair}
use bancod.Database.Pairs.{BancoPair, has_row}
use bancod.Application.Pairs.{resolve_decimals, validate_pair}
use bancod.Interface.Handler.{
  Code, invalid_argument, not_found, internal, already_exists, unimplemented, PairInfo,
  proto_to_domain, handle_add_pair, handle_update_pair,
}
use bancod.Interface.Handler.Codes.{handle_update_pair-not_found_iff}
use bancod.Interface.Json.{Json}
use bancod.Interface.Url.{path_escape}
use bancod.Interface.Gateway.{
  Request, post, put, delete, Route, to_add, to_update, route, Response, Backend, http_code, commit,
  read_request, serve_route, serve,
}
use bancod.Cli.{PairFlags, pair_add, pair_update, body_json, request}
use bancod.Cli.Body.{info_of, decode_request-body_json}

routes : (route post (text "/v1/pair") ≡ to_add) × (route put (text "/v1/pair") ≡ to_update)
unfolding route bancod.Interface.Gateway.unescape_all bancod.Prelude.Slashes.split_slash
    bancod.Interface.Url.path_unescape bancod.Interface.Gateway.route_clean
    bancod.Interface.Gateway.is_dirty bancod.Interface.Gateway.route_parts
    bancod.Interface.Gateway.route_v1 bancod.Interface.Gateway.on_pair
routes = (refl, refl)

commit-not_found :
    (rows : List BancoPair) (r : Result Code (List BancoPair))
    → ((commit rows r).0.code ≡ 404) ↔ (r ≡ err not_found)
unfolding commit http_code
commit-not_found rows (ok rows') = (λ h. absurd (omega arith), λ h. absurd cc)
commit-not_found rows (err invalid_argument) = (λ h. absurd (omega arith), λ h. absurd cc)
commit-not_found rows (err not_found) = (λ h. refl, λ h. refl)
commit-not_found rows (err internal) = (λ h. absurd (omega arith), λ h. absurd cc)
commit-not_found rows (err already_exists) = (λ h. absurd (omega arith), λ h. absurd cc)
commit-not_found rows (err unimplemented) = (λ h. absurd (omega arith), λ h. absurd cc)

module _ (marshal : Json → Bytes) (first_value : Bytes → Option Json) (b : Backend) where
  read_request-marshal :
      (f : PairFlags)
      → IsU64 f.min
      → IsU64 f.max
      → first_value (take (2 ^ 20) (marshal (body_json f))) ≡ some (body_json f)
      → read_request first_value b (marshal (body_json f)) ≡ some (some (info_of f))
  unfolding read_request
  read_request-marshal f hmin hmax reads =
      rw (reads, read_request) (decode_request-body_json f hmin hmax)

  served_add :
      (r : Request) (rows : List BancoPair) {info : Option PairInfo}
      → route r.method r.path ≡ to_add
      → read_request first_value b r.body ≡ some info
      → serve first_value b r rows ≡ commit rows (handle_add_pair b.indexer info rows)
  unfolding serve serve_route
  served_add r rows e h = rw (e, h, serve_route)

  served_update :
      (r : Request) (rows : List BancoPair) {info : Option PairInfo}
      → route r.method r.path ≡ to_update
      → read_request first_value b r.body ≡ some info
      → serve first_value b r rows ≡ commit rows (handle_update_pair b.indexer info rows)
  unfolding serve serve_route
  served_update r rows e h = rw (e, h, serve_route)

  -- `banco pair add` does at the server what AddPair does with the pair of the flags: their
  -- decimals have no part in it. That is for uint64 amounts, and where the decoder reads the body
  -- that the client wrote.
  pub serve-pair_add :
      (f : PairFlags) (rows : List BancoPair)
      → IsU64 f.min
      → IsU64 f.max
      → first_value (take (2 ^ 20) (marshal (body_json f))) ≡ some (body_json f)
      → serve first_value b (request marshal (pair_add f)) rows
        ≡ commit rows (handle_add_pair b.indexer (some (info_of f)) rows)
  unfolding request
  serve-pair_add f rows hmin hmax reads =
      served_add (request marshal (pair_add f)) rows routes.0
        (read_request-marshal f hmin hmax reads)

  -- `banco pair update` is answered with the status 404 exactly where the pair of its flags has
  -- decimals and is valid, and no stored pair has its name. That is for uint64 amounts, and where
  -- the decoder reads the body that the client wrote.
  pub serve-pair_update_missing_iff :
      (f : PairFlags) (rows : List BancoPair)
      → IsU64 f.min
      → IsU64 f.max
      → first_value (take (2 ^ 20) (marshal (body_json f))) ≡ some (body_json f)
      → ((serve first_value b (request marshal (pair_update f)) rows).0.code ≡ 404) ↔ (
          (q : Pair) × (resolve_decimals b.indexer (proto_to_domain (info_of f)) ≡ ok q)
          × (validate_pair q ≡ ok tt)
          × (has_row f.pair rows ≡ false))
  unfolding request
  serve-pair_update_missing_iff f rows hmin hmax reads =
      let served =
        served_update (request marshal (pair_update f)) rows routes.1
          (read_request-marshal f hmin hmax reads) in
      let (to, from) =
        commit-not_found rows (handle_update_pair b.indexer (some (info_of f)) rows) in
      let (to', from') = handle_update_pair-not_found_iff b.indexer (info_of f) rows hmin hmax in
      rw served (λ h. to' (to h), λ m. from (from' m))
