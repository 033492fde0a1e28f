-- ===== src/Daemon/Served.antt =====
-- main, from the empty process on: what it holds open at each of its calls, and at its end.
use bancod.Prelude.{
  ◌≡◌, refl, subst, Bool, true, false, List, ◌++◌, Option, some, Bytes, Result, ok, err, arith,
}
use bancod.Config.{Config, ConfigError, Env, load_config}
use bancod.Daemon.{
  Call, make_datadir, close_db, dial_introspector, stop_ark, close_introspector, start_service,
  stop_service, wait_signal, Answer, fine, no_change, failed, Answers, no_error, ◌>>=◌, call,
  or_fatal, Server, stop_server, serve, run_daemon, run_loaded, main,
}
use bancod.Daemon.Held.{
  Held, nothing, after_answer, held, is_layered, IsLayered, is_layered-IsLayered, stopped,
}
use bancod.Daemon.Ordered.{
  Leaves, is_ordered, call-Leaves, attempt-Leaves, then-Leaves, or_fatal-Leaves, is_ordered-prefix,
}
use bancod.Daemon.Opened.{
  with_db, dialed, unlocked, if_open, idle_attempt, open_db-Leaves, fatal-Leaves,
  unlock_wallet-Leaves,
}
use bancod.Daemon.Servers.{
  served, by_fields, by_result, settled, start_server-Leaves, stop_server-Leaves,
}

module _ (answers : Answers) where
  serve-Leaves : (cfg : Config) → Leaves answers unlocked (serve answers cfg) (λ u. settled)
  unfolding serve
  serve-Leaves cfg =
      then-Leaves answers unlocked (call start_service) (λ u. served) _ (λ u. settled)
        (call-Leaves answers unlocked start_service refl refl)
        (λ u e.
          then-Leaves answers served _ by_result _ (λ u. settled)
            (start_server-Leaves answers cfg.grpc_port cfg.http_port) (λ r e. to_end r.0 r.1 e))
    where
      to_end :
          (b : Bool) (srv : Server)
          → is_layered (by_fields served srv) ≡ true
          → Leaves answers
              (by_fields served srv)
              (or_fatal b >>= (λ (u : Unit {0}). call wait_signal >>= (λ (u : Unit {0}).
                call stop_service >>= (λ (u : Unit {0}). stop_server answers srv))))
              (λ u. settled)
      to_end b srv e =
          then-Leaves answers (by_fields served srv) (or_fatal b) (λ u. by_fields served srv) _
            (λ u. settled) (or_fatal-Leaves answers b (λ b. by_fields served srv) e)
            (λ u e.
              then-Leaves answers (by_fields served srv) (call wait_signal)
                (λ u. by_fields served srv) _ (λ u. settled)
                (call-Leaves answers (by_fields served srv) wait_signal e e)
                (λ u e.
                  then-Leaves answers (by_fields served srv) (call stop_service)
                    (λ u. by_fields settled srv) _ (λ u. settled)
                    (call-Leaves answers (by_fields served srv) stop_service e (ground arith))
                    (λ u e. stop_server-Leaves answers srv e)))

  abbrev over : Held
  over = record nothing { service = stopped }

  abbrev if_dialed_in : Bool → Held
  if_dialed_in b = record with_db { introspector = b }

  run_daemon-Leaves : (cfg : Config) → Leaves answers nothing (run_daemon answers cfg) (λ u. over)
  unfolding run_daemon
  run_daemon-Leaves cfg =
      fatal-Leaves answers nothing _ (λ b. nothing) _ (λ u. over)
        (idle_attempt answers no_error nothing (make_datadir cfg.datadir) refl (λ x. refl))
        (λ e.
          fatal-Leaves answers nothing _ if_open _ (λ u. over) (open_db-Leaves answers cfg.datadir)
            (λ e.
              fatal-Leaves answers with_db _ if_dialed_in _ (λ u. over)
                (attempt-Leaves answers no_error with_db (dial_introspector cfg.introspector_url)
                  if_dialed_in refl tried)
                (λ e.
                  then-Leaves answers dialed _ (λ u. unlocked) _ (λ u. over)
                    (unlock_wallet-Leaves answers cfg)
                    (λ u e.
                      then-Leaves answers unlocked _ (λ u. settled) _ (λ u. over) (serve-Leaves cfg)
                        (λ u e. closing)))))
    where
      tried :
          (x : Answer)
          → (is_layered (after_answer x with_db (dial_introspector cfg.introspector_url)) ≡ true)
            × (after_answer x with_db (dial_introspector cfg.introspector_url)
                ≡ if_dialed_in (no_error x))
      tried fine = (refl, refl)
      tried no_change = (refl, refl)
      tried failed = (refl, refl)

      closing :
          Leaves answers settled
            (call stop_ark
              >>= (λ (u : Unit {0}). call close_introspector >>= (λ (u : Unit {0}). call close_db)))
            (λ u. over)
      closing =
          then-Leaves answers settled _ (λ u. record settled { wallet = false }) _ (λ u. over)
            (call-Leaves answers settled stop_ark refl refl)
            (λ u e.
              then-Leaves answers _ _ (λ u. record over { db = true }) _ (λ u. over)
                (call-Leaves answers _ close_introspector refl refl)
                (λ u e. call-Leaves answers _ close_db refl refl))

  run_loaded-Leaves :
      (r : Result ConfigError Config) → Leaves answers nothing (run_loaded answers r) (λ u. over)
  unfolding run_loaded or_fatal
  run_loaded-Leaves (err e) = record { ordered = refl; left = λ u q. absurd cc }
  run_loaded-Leaves (ok cfg) = run_daemon-Leaves cfg

  main-Leaves :
      (env : Env) (home : Option Bytes) → Leaves answers nothing (main answers env home) (λ u. over)
  unfolding main
  main-Leaves env home = run_loaded-Leaves (load_config env home)

  -- Whatever its calls give, at each call of main: the service has been started at most once, and
  -- stopped only behind that; while it runs, the database, the introspector's connection and the
  -- wallet are open; HTTP is served only while the connection to the gRPC server is open, this
  -- only while that server listens, and it listens only while the database and the wallet are open.
  pub main-IsLayered :
      (env : Env) (home : Option Bytes) (before behind : List Call)
      → (main answers env home).calls ≡ before ++ behind
      → IsLayered (held answers nothing before)
  main-IsLayered env home before behind same = is_layered-IsLayered _ (
      is_ordered-prefix answers nothing before behind
        (subst (λ cs. is_ordered answers nothing cs ≡ true) same (main-Leaves env home).ordered))

  -- If main returns, the service has been started and stopped behind that, each once, and nothing
  -- that its calls opened is left open.
  pub returned_main-releases :
      (env : Env) (home : Option Bytes)
      → (main answers env home).result ≡ some tt
      → held answers nothing (main answers env home).calls ≡ record nothing { service = stopped }
  returned_main-releases env home returned = (main-Leaves env home).left tt returned
