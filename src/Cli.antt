-- ===== src/Cli.antt =====
-- cmd/banco/main.go: the command line, its requests, and how it takes the answers. The bytes of
-- JSON are written by the argument `marshal`.
mod Tests
pub mod Body
pub mod Effects
use bancod.Prelude.{
  ℕ, ◌≤◌, Bool, [], ◌∷◌, ◌++◌, Option, none, some, leb, if◌then◌else◌, Bytes, text, ℤ, pos, negsuc,
  Result, ok, err,
}
use bancod.Interface.Handler.{PairInfo}
use bancod.Interface.Json.{Json, other_number, bool, number, string, object, Members, end, member}
use bancod.Interface.Url.{path_escape}
use bancod.Interface.Gateway.{Method, get, post, put, delete, Request}

-- The flags of `pair add` and `pair update`.
pub record PairFlags : Type 0 where
  pub pair : Bytes
  pub min : ℕ
  pub max : ℕ
  pub base_decimals : ℤ
  pub quote_decimals : ℤ
  pub price_feed : Bytes
  pub invert_price : Bool

pub data Command : Type 0 where
  pair_add pair_update : PairFlags → Command
  pair_remove : Bytes → Command
  pair_list status balance address : Command

pub number_of : ℤ → Json
number_of (pos n) = number n
number_of (negsuc n) = other_number

-- parsePairFlags, as json.Marshal writes the map: by its keys in order.
pub pair_json : PairFlags → Json
unfolding number_of
pair_json f = object (
    member (text "base_decimals") (number_of f.base_decimals) (
      member (text "invert_price") (bool f.invert_price) (
        member (text "max_amount") (number f.max) (
          member (text "min_amount") (number f.min) (
            member (text "pair") (string f.pair) (
              member (text "price_feed") (string f.price_feed)
                (member (text "quote_decimals") (number_of f.quote_decimals) end)))))))

-- `map[string]any{"pair": pair}`
pub body_json : PairFlags → Json
unfolding pair_json
body_json f = object (member (text "pair") (pair_json f) end)

-- doGet, doPost, doPut and doDelete.
pub request_to : Method → Bytes → Bytes → Request
request_to m path body = record { method = m; path = path; limit = []; body = body }

pub request : (Json → Bytes) → Command → Request
unfolding request_to
request marshal (pair_add f) = request_to post (text "/v1/pair") (marshal (body_json f))
request marshal (pair_update f) = request_to put (text "/v1/pair") (marshal (body_json f))
request marshal (pair_remove name) = request_to delete (text "/v1/pair/" ++ path_escape name) []
request marshal pair_list = request_to get (text "/v1/pairs") []
request marshal status = request_to get (text "/v1/status") []
request marshal balance = request_to get (text "/v1/balance") []
request marshal address = request_to get (text "/v1/address") []

-- The answer of the server: its status code, and its body, if it can be read.
pub record Answer : Type 0 where
  pub code : ℕ
  pub body : Option Bytes

pub data CliError : Type 0 where
  request_failed read_failed : CliError
  server_error : ℕ → Bytes → CliError

-- What is printed: indented JSON, or a body that is none as it is; and a line feed.
pub printed : Option Bytes → Bytes → Bytes
printed none raw = raw ++ 10 ∷ []
printed (some pretty) raw = pretty ++ 10 ∷ []

-- printResponse; `indent` is json.Indent.
pub print_response : (Bytes → Option Bytes) → Answer → Result CliError Bytes
print_response indent a = elim a.body [
  | none ↦ err read_failed
  | some body ↦
      if leb 400 a.code then err (server_error a.code body) else ok (printed (indent body) body)
]

-- A command, over the network.
pub run :
    (Json → Bytes)
    → (Bytes → Option Bytes)
    → (Request → Option Answer)
    → Command
    → Result CliError Bytes
run marshal indent send c = elim (send (request marshal c)) [
  | none ↦ err request_failed
  | some a ↦ print_response indent a
]
