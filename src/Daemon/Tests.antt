-- ===== src/Daemon/Tests.antt =====
-- A process in which each call succeeds, and one in which the gRPC port is taken.
use bancod.Prelude.{
  ◌≡◌, refl, Bool, true, false, List, [], ◌∷◌, ◌++◌, Option, none, some, Bytes, text, bytes_equal,
  if◌then◌else◌, take,
}
use bancod.Config.{Env}
use bancod.Daemon.{Call, Answers, fine, failed, listen_grpc, main}
use bancod.Daemon.Held.{held, nothing, stopped, IsLayered}
use bancod.Daemon.Served.{main-IsLayered, returned_main-releases}

abbrev env : Env
env name =
    if bytes_equal name (text "BANCOD_ARK_URL")
    then text "ark:1"
    else if bytes_equal name (text "BANCOD_WALLET_SEED")
    then text "seed"
    else if bytes_equal name (text "BANCOD_INTROSPECTOR_URL")
    then text "intro:2"
    else []

abbrev home : Option Bytes
home = some (text "/home/ann/")

abbrev all_fine : Answers
all_fine c = fine

abbrev port_taken : Answers
port_taken (listen_grpc port) = failed
port_taken c = fine

returns : (main all_fine env home).result ≡ some tt
unfolding main bancod.Daemon.run_loaded bancod.Daemon.run_daemon bancod.Daemon.◌>>=◌
    bancod.Daemon.attempt bancod.Daemon.call bancod.Daemon.done bancod.Daemon.or_fatal
    bancod.Daemon.and_then bancod.Daemon.or_close_db bancod.Daemon.open_db
    bancod.Daemon.run_migrations bancod.Daemon.unlock_wallet bancod.Daemon.serve
    bancod.Daemon.new_server bancod.Daemon.start_gateway bancod.Daemon.start_server
    bancod.Daemon.stop_server bancod.Config.load_config bancod.Config.required
    bancod.Config.datadir_of bancod.Config.number_or bancod.Config.is_port bancod.Config.same_number
    bancod.Config.Path.join bancod.Prelude.Numerals.atoi bancod.Prelude.Numerals.signed
    bancod.Prelude.Numerals.parse_number bancod.Prelude.Numerals.parse_digits
    bancod.Prelude.Numerals.in_range
returns = refl

taken_ends : (main port_taken env home).result ≡ none
unfolding main bancod.Daemon.run_loaded bancod.Daemon.run_daemon bancod.Daemon.◌>>=◌
    bancod.Daemon.attempt bancod.Daemon.call bancod.Daemon.done bancod.Daemon.or_fatal
    bancod.Daemon.and_then bancod.Daemon.or_close_db bancod.Daemon.open_db
    bancod.Daemon.run_migrations bancod.Daemon.unlock_wallet bancod.Daemon.serve
    bancod.Daemon.new_server bancod.Daemon.start_gateway bancod.Daemon.start_server
    bancod.Daemon.stop_server bancod.Config.load_config bancod.Config.required
    bancod.Config.datadir_of bancod.Config.number_or bancod.Config.is_port bancod.Config.same_number
    bancod.Config.Path.join bancod.Prelude.Numerals.atoi bancod.Prelude.Numerals.signed
    bancod.Prelude.Numerals.parse_number bancod.Prelude.Numerals.parse_digits
    bancod.Prelude.Numerals.in_range
taken_ends = refl

abbrev calls : List Call
calls = (main port_taken env home).calls

-- The calls up to the one that fails.
at_listen : calls ≡ take 12 calls ++ listen_grpc (bancod.Prelude.pos 7070) ∷ []
unfolding main bancod.Daemon.run_loaded bancod.Daemon.run_daemon bancod.Daemon.◌>>=◌
    bancod.Daemon.attempt bancod.Daemon.call bancod.Daemon.done bancod.Daemon.or_fatal
    bancod.Daemon.and_then bancod.Daemon.or_close_db bancod.Daemon.open_db
    bancod.Daemon.run_migrations bancod.Daemon.unlock_wallet bancod.Daemon.serve
    bancod.Daemon.new_server bancod.Daemon.start_gateway bancod.Daemon.start_server
    bancod.Daemon.stop_server bancod.Config.load_config bancod.Config.required
    bancod.Config.datadir_of bancod.Config.number_or bancod.Config.is_port bancod.Config.same_number
    bancod.Config.Path.join bancod.Prelude.Numerals.atoi bancod.Prelude.Numerals.signed
    bancod.Prelude.Numerals.parse_number bancod.Prelude.Numerals.parse_digits
    bancod.Prelude.Numerals.in_range
at_listen = refl

main-IsLayered_example : IsLayered (held port_taken nothing (take 12 calls))
main-IsLayered_example =
    main-IsLayered port_taken env home (take 12 calls) (listen_grpc (bancod.Prelude.pos 7070) ∷ [])
      at_listen

returned_main-releases_example :
    held all_fine nothing (main all_fine env home).calls ≡ record nothing { service = stopped }
returned_main-releases_example = returned_main-releases all_fine env home returns
