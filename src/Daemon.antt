-- ===== src/Daemon.antt =====
-- cmd/bancod/main.go, the OpenDB of internal/infrastructure/db/sqlite/db.go, and Start and Stop of
-- internal/interface/grpc/server.go: the calls that they make, in order. Logging is left out.
pub mod Held
pub mod Ordered
pub mod Opened
pub mod Servers
pub mod Served
mod Tests
use bancod.Prelude.{
  ℤ, ◌≡◌, Bool, true, false, List, [], ◌∷◌, ◌++◌, Option, none, some, Bytes, text, if◌then◌else◌,
  Result, ok, err,
}
use bancod.Config.{Config, ConfigError, Env, load_config}
use bancod.Config.Path.{join}

-- The calls that open, use or close something outside the program.
pub data Call : Type 0 where
  make_datadir open_sqlite : Bytes → Call
  enable_wal migration_source migration_driver migration_instance migrate_up close_db : Call
  dial_introspector new_ark_client : Bytes → Call
  init_ark : Bytes → Bytes → Bytes → Call
  unlock_ark : Bytes → Call
  stop_ark close_introspector start_service stop_service : Call
  listen_grpc : ℤ → Call
  serve_grpc : Call
  dial_grpc : ℤ → Call
  serve_http : ℤ → Call
  shutdown_http close_grpc_conn stop_grpc wait_signal : Call

-- What a call gives: no error, migrate.ErrNoChange, or another error.
pub data Answer : Type 0 where
  fine no_change failed : Answer

-- What the calls give, each by its arguments.
abbrev pub Answers : Type 0
Answers = Call → Answer

-- A piece of the program: the calls that it makes, and its result, or `none` where log.Fatal ends
-- the process.
pub record Proc (A : Type 0) : Type 0 where
  pub calls : List Call
  pub result : Option A

infixl 5 ◌>>=◌ ◌>>◌
pub ◌>>=◌ : {A B : Type 0} → Proc A → (A → Proc B) → Proc B
m >>= next = elim m.result [
  | none ↦ record { calls = m.calls; result = none }
  | some a ↦ let rest = next a in record { calls = m.calls ++ rest.calls; result = rest.result }
]

abbrev pub ◌>>◌ : {A B : Type 0} → Proc A → Proc B → Proc B
◌>>◌ {A} m n = m >>= (λ (a : A). n)

pub done : {A : Type 0} → A → Proc A
done a = record { calls = []; result = some a }

pub call : Call → Proc (Unit {0})
call c = record { calls = c ∷ []; result = some tt }

-- A call whose error is looked at: the result says whether there was none.
pub attempt : (Answer → Bool) → Answers → Call → Proc Bool
attempt is_fine answers c = record { calls = c ∷ []; result = some (is_fine (answers c)) }

-- `err == nil`
abbrev pub no_error : Answer → Bool
no_error fine = true
no_error no_change = false
no_error failed = false

-- `err == nil || err == migrate.ErrNoChange`
abbrev pub migrated : Answer → Bool
migrated fine = true
migrated no_change = true
migrated failed = false

-- log.Fatal where the result is an error: the deferred calls do not run.
pub or_fatal : Bool → Proc (Unit {0})
or_fatal true = done tt
or_fatal false = record { calls = []; result = none }

-- `if err != nil { return err }` between a call and the rest, which has an error or none as well.
pub and_then : Proc Bool → Proc Bool → Proc Bool
and_then first rest = do passed ← first; if passed then rest else done false

module _ (answers : Answers) where
  pub run_migrations : Proc Bool
  run_migrations = and_then (attempt no_error answers migration_source) (
      and_then (attempt no_error answers migration_driver) (
        and_then (attempt no_error answers migration_instance)
          (attempt migrated answers migrate_up)))

  -- An error behind the opening: the database is closed before it is returned.
  pub or_close_db : Proc Bool → Proc Bool
  or_close_db first = do
    passed ← first
    if passed then done true else (do call close_db; done false)

  pub open_db : Bytes → Proc Bool
  open_db datadir =
      and_then (attempt no_error answers (open_sqlite (join datadir (text "bancod.db"))))
        (and_then (or_close_db (attempt no_error answers enable_wal)) (or_close_db run_migrations))

-- A grpcservice.Server: which of its fields are set, and its ports. Its handler is in Interface/Handler.
pub record Server : Type 0 where
  pub grpc_server : Bool
  pub http_server : Bool
  pub grpc_conn : Bool
  pub grpc_port : ℤ
  pub http_port : ℤ

pub new_server : ℤ → ℤ → Server
new_server grpc_port http_port = record {
  grpc_server = false;
  http_server = false;
  grpc_conn = false;
  grpc_port = grpc_port;
  http_port = http_port;
}

module _ (answers : Answers) where
  -- Start, from the gRPC server on; its result is the error, if any, and the fields.
  pub start_gateway : Server → Proc (Bool × Server)
  start_gateway s = do
    dialed ← attempt no_error answers (dial_grpc s.grpc_port)
    if dialed
        then (do
          call (serve_http s.http_port)
          done (true, record s { grpc_conn = true; http_server = true }))
        else done (false, s)

  pub start_server : Server → Proc (Bool × Server)
  start_server s = do
    listens ← attempt no_error answers (listen_grpc s.grpc_port)
    if listens
        then (do call serve_grpc; start_gateway (record s { grpc_server = true }))
        else done (false, s)

  -- Stop: an error of Shutdown or Close is logged, and the rest goes on.
  pub stop_server : Server → Proc (Unit {0})
  stop_server s = do
    if s.http_server then call shutdown_http else done tt
    if s.grpc_conn then call close_grpc_conn else done tt
    if s.grpc_server then call stop_grpc else done tt

  -- main from the client of the wallet on, with its deferred calls at the end.
  pub unlock_wallet : Config → Proc (Unit {0})
  unlock_wallet cfg = do
    made ← attempt no_error answers (new_ark_client cfg.datadir)
    or_fatal made
    init ← attempt no_error answers (init_ark cfg.ark_url cfg.wallet_seed cfg.wallet_password)
    or_fatal init
    unlocked ← attempt no_error answers (unlock_ark cfg.wallet_password)
    or_fatal unlocked

  -- From the service on to the signal and the end.
  pub serve : Config → Proc (Unit {0})
  serve cfg = do
    call start_service
    (started, srv) ← start_server (new_server cfg.grpc_port cfg.http_port)
    or_fatal started
    call wait_signal
    call stop_service
    stop_server srv

  pub run_daemon : Config → Proc (Unit {0})
  run_daemon cfg = do
    made ← attempt no_error answers (make_datadir cfg.datadir)
    or_fatal made
    opened ← open_db answers cfg.datadir
    or_fatal opened
    dialed ← attempt no_error answers (dial_introspector cfg.introspector_url)
    or_fatal dialed
    unlock_wallet cfg
    serve cfg
    call stop_ark
    call close_introspector
    call close_db

  -- main behind LoadConfig.
  pub run_loaded : Result ConfigError Config → Proc (Unit {0})
  run_loaded (err e) = or_fatal false
  run_loaded (ok cfg) = run_daemon cfg

  -- main, in an environment and a home directory.
  pub main : Env → Option Bytes → Proc (Unit {0})
  main env home = run_loaded (load_config env home)
