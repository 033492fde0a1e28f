-- ===== src/Config/Tests.antt =====
-- An environment that sets the required variables and a port.
use bancod.Prelude.{
  ◌≡◌, ◌↔◌, refl, Option, some, [], Bytes, text, bytes_equal, if◌then◌else◌, pos, ok,
}
use bancod.Config.{Config, Env, load_config}
use bancod.Config.Loaded.{Describes, load_config_iff}

abbrev env : Env
env name =
    if bytes_equal name (text "BANCOD_ARK_URL")
    then text "ark:1"
    else if bytes_equal name (text "BANCOD_WALLET_SEED")
    then text "seed"
    else if bytes_equal name (text "BANCOD_INTROSPECTOR_URL")
    then text "intro:2"
    else if bytes_equal name (text "BANCOD_HTTP_PORT")
    then text "8080"
    else []

abbrev home : Option Bytes
home = some (text "/home/ann/")

abbrev config : Config
config = record {
  datadir = text "/home/ann/.bancod";
  ark_url = text "ark:1";
  wallet_seed = text "seed";
  wallet_password = [];
  introspector_url = text "intro:2";
  grpc_port = pos 7070;
  http_port = pos 8080;
  log_level = pos 4;
}

loaded : load_config env home ≡ ok config
unfolding load_config bancod.Config.required bancod.Config.datadir_of bancod.Config.number_or
    bancod.Prelude.Numerals.atoi bancod.Prelude.Numerals.signed bancod.Prelude.Numerals.parse_number
    bancod.Prelude.Numerals.parse_digits bancod.Prelude.Numerals.in_range bancod.Config.is_port
    bancod.Config.same_number bancod.Config.Path.join
loaded = refl

load_config_iff_example : (load_config env home ≡ ok config) ↔ Describes env home config
load_config_iff_example = load_config_iff env home config
