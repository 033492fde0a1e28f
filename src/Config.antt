-- ===== src/Config.antt =====
-- internal/config/config.go: LoadConfig, over the environment and the home directory that the
-- operating system reports.
mod Tests
pub mod Path
pub mod Loaded
use bancod.Prelude.{
  ℕ, Bool, false, not, ◌||◌, Option, none, some, ltb, ◌==◌, if◌then◌else◌, [], ◌∷◌, Bytes, text, ℤ,
  pos, negsuc, Result, ok, err, ◌>>=◌, ◌>>◌, guard, or_fail,
}
use bancod.Prelude.Numerals.{atoi}
use bancod.Config.Path.{join}

pub record Config : Type 0 where
  pub datadir : Bytes
  pub ark_url : Bytes
  pub wallet_seed : Bytes
  pub wallet_password : Bytes
  pub introspector_url : Bytes
  pub grpc_port : ℤ
  pub http_port : ℤ
  pub log_level : ℤ

pub data ConfigError : Type 0 where
  ark_url_required wallet_seed_required introspector_url_required no_home : ConfigError
  invalid_grpc_port invalid_http_port invalid_log_level : ConfigError
  grpc_port_range http_port_range same_ports : ConfigError

-- os.Getenv, which gives an empty string for a variable that is not set.
abbrev pub Env : Type 0
Env = Bytes → Bytes

unfoldable pub required : Bytes → ConfigError → Result ConfigError Bytes
required [] e = err e
required (c ∷ s) e = ok (c ∷ s)

-- The value, or the default directory below the user's home.
unfoldable pub datadir_of : Bytes → Option Bytes → Result ConfigError Bytes
datadir_of [] none = err no_home
datadir_of [] (some home) = ok (join home (text ".bancod"))
datadir_of (c ∷ s) home = ok (c ∷ s)

-- A variable that is empty leaves the default; any other must be a number.
unfoldable pub number_or : Bytes → ℤ → ConfigError → Result ConfigError ℤ
number_or [] default e = ok default
number_or (c ∷ s) default e = or_fail (atoi (c ∷ s)) e

-- `p < 1 || p > 65535`, negated
unfoldable pub is_port : ℤ → Bool
is_port (negsuc n) = false
is_port (pos n) = not (ltb n 1 || ltb 65535 n)

unfoldable pub same_number : ℤ → ℤ → Bool
same_number (pos m) (pos n) = m == n
same_number (negsuc m) (negsuc n) = m == n
same_number (pos m) (negsuc n) = false
same_number (negsuc m) (pos n) = false

unfoldable pub load_config : Env → Option Bytes → Result ConfigError Config
load_config env home = do
  ark_url ← required (env (text "BANCOD_ARK_URL")) ark_url_required
  wallet_seed ← required (env (text "BANCOD_WALLET_SEED")) wallet_seed_required
  introspector_url ← required (env (text "BANCOD_INTROSPECTOR_URL")) introspector_url_required
  datadir ← datadir_of (env (text "BANCOD_DATADIR")) home
  let wallet_password = env (text "BANCOD_WALLET_PASSWORD")
  grpc_port ← number_or (env (text "BANCOD_GRPC_PORT")) (pos 7070) invalid_grpc_port
  http_port ← number_or (env (text "BANCOD_HTTP_PORT")) (pos 7071) invalid_http_port
  log_level ← number_or (env (text "BANCOD_LOG_LEVEL")) (pos 4) invalid_log_level
  guard (is_port grpc_port) grpc_port_range
  guard (is_port http_port) http_port_range
  guard (not (same_number grpc_port http_port)) same_ports
  ok (record {
    datadir = datadir;
    ark_url = ark_url;
    wallet_seed = wallet_seed;
    wallet_password = wallet_password;
    introspector_url = introspector_url;
    grpc_port = grpc_port;
    http_port = http_port;
    log_level = log_level;
  })
