-- ===== src/Interface/Gateway.antt =====
-- internal/interface/grpc/server.go: the HTTP routes, their handlers over the grpc handler, and
-- the status codes of the answers. The bytes of JSON are read by the argument `first_value`, which
-- gives the value that the decoder finds in a prefix of the body, or nothing.
mod Tests
pub mod Paths
pub mod Limits
use bancod.Prelude.{
  ℕ, ◌+◌, ◌^◌, Bool, true, false, not, ◌&&◌, ◌||◌, List, [], ◌∷◌, Option, none, some, ltb, leb,
  if◌then◌else◌, take, Bytes, text, bytes_equal, ℤ, pos, negsuc, Result, ok, err,
}
use bancod.Prelude.Numerals.{atoi}
use bancod.Prelude.Slashes.{split_slash}
use bancod.Database.Pairs.{BancoPair}
use bancod.Database.Trades.{TradeTable}
use bancod.Application.Pairs.{AssetAnswer, is_empty}
use bancod.Application.Service.{WalletBalance, Address}
use bancod.Interface.Handler.{
  Code, invalid_argument, not_found, internal, already_exists, unimplemented, PairInfo,
  BalanceResponse, TradeInfo, handle_add_pair, handle_update_pair, handle_remove_pair,
  handle_list_pairs, handle_get_balance, handle_get_address, handle_list_trades,
}
use bancod.Interface.Json.{Json, decode_request}
use bancod.Interface.Url.{path_unescape}

pub data Method : Type 0 where
  get head post put delete other_method : Method

-- A request as the server reads it: the escaped path, the first value of `limit` in the query or an
-- empty string, and the body.
pub record Request : Type 0 where
  pub method : Method
  pub path : Bytes
  pub limit : Bytes
  pub body : Bytes

-- Where a ServeMux sends a request.
pub data Route : Type 0 where
  to_add to_update to_list to_status to_balance to_address to_trades : Route
  to_remove : Bytes → Route
  web_page no_route wrong_method redirected bad_url : Route

-- An empty part that is not the last, `.` or `..`: the path is not clean.
unfoldable pub is_dirty : List Bytes → Bool
is_dirty [] = false
is_dirty (p ∷ []) = bytes_equal p (text ".") || bytes_equal p (text "..")
is_dirty (p ∷ q ∷ ps) =
    let rest = is_dirty (q ∷ ps) in
    is_empty p || bytes_equal p (text ".") || bytes_equal p (text "..") || rest

unfoldable pub unescape_all : List Bytes → Option (List Bytes)
unescape_all [] = some []
unescape_all (p ∷ ps) =
    let rest = unescape_all ps in
    elim (path_unescape p) [
      | none ↦ none
      | some q ↦ elim rest [ none ↦ none | some qs ↦ some (q ∷ qs) ]
    ]

-- "GET" patterns also take HEAD.
pub on_get : Route → Method → Route
on_get route get = route
on_get route head = route
on_get route post = wrong_method
on_get route put = wrong_method
on_get route delete = wrong_method
on_get route other_method = wrong_method

unfoldable pub on_pair : Method → Route
on_pair post = to_add
on_pair put = to_update
on_pair get = wrong_method
on_pair head = wrong_method
on_pair delete = wrong_method
on_pair other_method = wrong_method

pub on_remove : Bytes → Method → Route
on_remove name delete = to_remove name
on_remove name get = wrong_method
on_remove name head = wrong_method
on_remove name post = wrong_method
on_remove name put = wrong_method
on_remove name other_method = wrong_method

-- The patterns below /v1/ on the unescaped parts. A wildcard takes no empty part, and none that is
-- a slash.
unfoldable pub route_v1 : Method → List Bytes → Route
route_v1 m [] = no_route
route_v1 m (p ∷ []) =
    if bytes_equal p (text "pair")
    then on_pair m
    else if bytes_equal p (text "pairs")
    then on_get to_list m
    else if bytes_equal p (text "status")
    then on_get to_status m
    else if bytes_equal p (text "balance")
    then on_get to_balance m
    else if bytes_equal p (text "address")
    then on_get to_address m
    else if bytes_equal p (text "trades")
    then on_get to_trades m
    else no_route
route_v1 m (p ∷ q ∷ []) =
    if bytes_equal p (text "pair") && not (is_empty q) && not (bytes_equal q (text "/"))
    then on_remove q m
    else no_route
route_v1 m (p ∷ q ∷ r ∷ ps) = no_route

-- The outer mux: /v1/ goes to the gateway, /v1 is redirected, and all else is the web page's.
unfoldable pub route_parts : Method → List Bytes → Route
route_parts m [] = web_page
route_parts m (v ∷ []) = if bytes_equal v (text "v1") then redirected else web_page
route_parts m (v ∷ p ∷ ps) = if bytes_equal v (text "v1") then route_v1 m (p ∷ ps) else web_page

-- The escapes of the URL are read before the routes; then the parts behind the first slash.
unfoldable pub route_clean : Method → List Bytes → List Bytes → Route
route_clean m [] plain = redirected
route_clean m (first ∷ parts) [] = redirected
route_clean m (first ∷ parts) (q ∷ plain) =
    if not (is_empty first) || is_dirty parts then redirected else route_parts m plain

unfoldable pub route : Method → Bytes → Route
route m path = elim (unescape_all (split_slash path)) [
  | none ↦ bad_url
  | some plain ↦ route_clean m (split_slash path) plain
]

-- The body of an answer.
pub data Reply : Type 0 where
  no_content failure : Reply
  pair_list : List PairInfo → Reply
  status_reply : Bool → Reply
  balance_reply : BalanceResponse → Reply
  address_reply : Address → Reply
  trade_list : List TradeInfo → Reply

pub record Response : Type 0 where
  pub code : ℕ
  pub reply : Reply

-- httpGRPCError
unfoldable pub http_code : Code → ℕ
http_code invalid_argument = 400
http_code not_found = 404
http_code already_exists = 409
http_code unimplemented = 501
http_code internal = 500

pub respond : {A : Type 0} → (A → Reply) → Result Code A → Response
respond f (ok a) = record { code = 200; reply = f a }
respond f (err e) = record { code = http_code e; reply = failure }

-- The limit of GET /v1/trades: a number from 1 to 1000, or 0.
pub in_bounds : Option ℤ → ℕ
in_bounds none = 0
in_bounds (some (negsuc n)) = 0
in_bounds (some (pos n)) = if ltb 0 n && leb n 1000 then n else 0

pub trades_limit : Bytes → ℕ
trades_limit [] = 0
trades_limit (c ∷ s) = in_bounds (atoi (c ∷ s))

-- What the handlers work on beside the pairs: the indexer, the client's answers, the repository of
-- trades, Status, and the status codes of the web page's handler.
pub record Backend : Type 0 where
  pub indexer : Option (Bytes → AssetAnswer)
  pub wallet : Option WalletBalance
  pub new_offchain : Option Bytes
  pub new_boarding : Option Bytes
  pub trades : Option TradeTable
  pub running : Bool
  pub page_code : Bytes → ℕ

-- A request that changes the pairs, if it succeeds.
unfoldable pub commit : List BancoPair → Result Code (List BancoPair) → Response × List BancoPair
commit rows (ok rows') = (record { code = 200; reply = no_content }, rows')
commit rows (err e) = (record { code = http_code e; reply = failure }, rows)

-- An answer of the mux itself, of the web page, or for a body that is no request.
pub plain_answer : ℕ → List BancoPair → Response × List BancoPair
plain_answer code rows = (record { code = code; reply = failure }, rows)

module _ (first_value : Bytes → Option Json) (b : Backend) where
  -- MaxBytesReader gives the first 2^20 bytes of the body.
  unfoldable pub read_request : Bytes → Option (Option PairInfo)
  read_request body = elim (first_value (take (2 ^ 20) body)) [
    | none ↦ none
    | some j ↦ decode_request j
  ]

  unfoldable pub serve_route : Route → Request → List BancoPair → Response × List BancoPair
  serve_route to_add r rows = elim (read_request r.body) [
    | none ↦ plain_answer 400 rows
    | some info ↦ commit rows (handle_add_pair b.indexer info rows)
  ]
  serve_route to_update r rows = elim (read_request r.body) [
    | none ↦ plain_answer 400 rows
    | some info ↦ commit rows (handle_update_pair b.indexer info rows)
  ]
  serve_route (to_remove name) r rows = commit rows (handle_remove_pair name rows)
  serve_route to_list r rows =
      (record { code = 200; reply = pair_list (handle_list_pairs rows) }, rows)
  serve_route to_status r rows = (record { code = 200; reply = status_reply b.running }, rows)
  serve_route to_balance r rows = (respond balance_reply (handle_get_balance b.wallet), rows)
  serve_route to_address r rows =
      (respond address_reply (handle_get_address b.new_offchain b.new_boarding), rows)
  serve_route to_trades r rows = (
    record {
      code = 200;
      reply = trade_list (handle_list_trades (pos (trades_limit r.limit)) b.trades);
    },
    rows,
  )
  serve_route web_page r rows = plain_answer (b.page_code r.path) rows
  serve_route no_route r rows = plain_answer 404 rows
  serve_route wrong_method r rows = plain_answer 405 rows
  serve_route redirected r rows = plain_answer 301 rows
  serve_route bad_url r rows = plain_answer 400 rows

  -- A request to the server's HTTP port.
  unfoldable pub serve : Request → List BancoPair → Response × List BancoPair
  serve r rows = serve_route (route r.method r.path) r rows
