-- ===== src/Daemon/Held.antt =====
-- What the program holds open behind its calls, and which of it needs which.
use bancod.Prelude.{arith, ◌≡◌, Bool, true, false, not, ◌&&◌, ◌||◌, List, [], ◌∷◌}
use bancod.Daemon.{
  Call, make_datadir, open_sqlite, enable_wal, migration_source, migration_driver,
  migration_instance, migrate_up, close_db, dial_introspector, new_ark_client, init_ark, unlock_ark,
  stop_ark, close_introspector, start_service, stop_service, listen_grpc, serve_grpc, dial_grpc,
  serve_http, shutdown_http, close_grpc_conn, stop_grpc, wait_signal, Answer, Answers, no_error,
}

-- The calls of the service: none yet, Start, and Stop behind it; or any others.
pub data ServiceUse : Type 0 where
  idle running stopped misused : ServiceUse

pub record Held : Type 0 where
  pub db : Bool
  pub introspector : Bool
  pub wallet : Bool
  pub service : ServiceUse
  pub grpc : Bool
  pub conn : Bool
  pub http : Bool

abbrev pub nothing : Held
nothing = record {
  db = false;
  introspector = false;
  wallet = false;
  service = idle;
  grpc = false;
  conn = false;
  http = false;
}

abbrev pub started : ServiceUse → ServiceUse
started idle = running
started running = misused
started stopped = misused
started misused = misused

abbrev pub ended : ServiceUse → ServiceUse
ended idle = misused
ended running = stopped
ended stopped = misused
ended misused = misused

-- A call, with what it gave: a call that fails opens nothing.
abbrev pub after_answer : Answer → Held → Call → Held
after_answer x h (open_sqlite path) = record h { db = no_error x || h.db }
after_answer x h close_db = record h { db = false }
after_answer x h (dial_introspector url) = record h { introspector = no_error x || h.introspector }
after_answer x h close_introspector = record h { introspector = false }
after_answer x h (unlock_ark password) = record h { wallet = no_error x || h.wallet }
after_answer x h stop_ark = record h { wallet = false }
after_answer x h start_service = record h { service = started h.service }
after_answer x h stop_service = record h { service = ended h.service }
after_answer x h (listen_grpc port) = record h { grpc = no_error x || h.grpc }
after_answer x h stop_grpc = record h { grpc = false }
after_answer x h (dial_grpc port) = record h { conn = no_error x || h.conn }
after_answer x h close_grpc_conn = record h { conn = false }
after_answer x h (serve_http port) = record h { http = true }
after_answer x h shutdown_http = record h { http = false }
after_answer x h (make_datadir path) = h
after_answer x h enable_wal = h
after_answer x h migration_source = h
after_answer x h migration_driver = h
after_answer x h migration_instance = h
after_answer x h migrate_up = h
after_answer x h (new_ark_client datadir) = h
after_answer x h (init_ark url seed password) = h
after_answer x h serve_grpc = h
after_answer x h wait_signal = h

abbrev pub held : Answers → Held → List Call → Held
held answers h [] = h
held answers h (c ∷ cs) = held answers (after_answer (answers c) h c) cs

abbrev pub is_running : ServiceUse → Bool
is_running idle = false
is_running running = true
is_running stopped = false
is_running misused = true

-- The service is started once and stopped behind that, and runs with the database, the introspector
-- and the wallet open; HTTP is served while the connection to the gRPC server is open, this while
-- that server listens, and it listens while the database and the wallet are open.
abbrev pub IsLayered : Held → Type 0
IsLayered h =
    ¬ (h.service ≡ misused)
    × (is_running h.service ≡ true → (h.db ≡ true) × (h.introspector ≡ true) × (h.wallet ≡ true))
    × (h.http ≡ true → h.conn ≡ true)
    × (h.conn ≡ true → h.grpc ≡ true)
    × (h.grpc ≡ true → (h.db ≡ true) × (h.wallet ≡ true))

abbrev is_proper : ServiceUse → Bool
is_proper idle = true
is_proper running = true
is_proper stopped = true
is_proper misused = false

-- The same as a test.
abbrev pub is_layered : Held → Bool
is_layered h =
    is_proper h.service
    && (not (is_running h.service) || (h.db && h.introspector && h.wallet))
    && (not h.http || h.conn)
    && (not h.conn || h.grpc)
    && (not h.grpc || (h.db && h.wallet))

proper : (u : ServiceUse) → is_proper u ≡ true → ¬ (u ≡ misused)
proper u e m = let e' = rw m at e in cc

pub is_layered-IsLayered : (h : Held) → is_layered h ≡ true → IsLayered h
is_layered-IsLayered h e =
    let split : (is_proper h.service ≡ true) = ground arith in
    (
      proper h.service split,
      λ r. (ground arith, ground arith, ground arith),
      λ r. ground arith,
      λ r. ground arith,
      λ r. (ground arith, ground arith),
    )
