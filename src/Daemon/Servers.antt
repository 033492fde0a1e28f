-- ===== src/Daemon/Servers.antt =====
-- Start and Stop of the servers: what is open behind each of their calls.
use bancod.Prelude.{◌≡◌, refl, ap, Bool, true, false, if◌then◌else◌, ℤ, arith}
use bancod.Daemon.{
  listen_grpc, serve_grpc, dial_grpc, serve_http, shutdown_http, close_grpc_conn, stop_grpc, Answer,
  fine, no_change, failed, Answers, no_error, ◌>>=◌, done, call, Server, new_server, start_gateway,
  start_server, stop_server,
}
use bancod.Daemon.Held.{Held, after_answer, is_layered, running, stopped}
use bancod.Daemon.Ordered.{
  Leaves, done-Leaves, call-Leaves, attempt-Leaves, then-Leaves, when-Leaves,
}
use bancod.Daemon.Opened.{unlocked}

abbrev pub served : Held
served = record unlocked { service = running }

-- What the server's fields say is open.
abbrev pub by_fields : Held → Server → Held
by_fields h s = record h { grpc = s.grpc_server; conn = s.grpc_conn; http = s.http_server }

abbrev listening : Server → Server
listening s = record s { grpc_server = true; http_server = false; grpc_conn = false }

abbrev pub by_result : Bool × Server → Held
by_result r = by_fields served r.1

abbrev pub settled : Held
settled = record unlocked { service = stopped }

abbrev no_http : Server → Held
no_http s = record settled { grpc = s.grpc_server; conn = s.grpc_conn }

abbrev no_conn : Server → Held
no_conn s = record settled { grpc = s.grpc_server }

module _ (answers : Answers) where
  start_gateway-Leaves :
      (s : Server)
      → Leaves answers
          (record served { grpc = true })
          (start_gateway answers (listening s))
          by_result
  unfolding start_gateway
  start_gateway-Leaves s =
      then-Leaves answers (record served { grpc = true }) _ if_dialed _ _
        (attempt-Leaves answers no_error (record served { grpc = true }) (dial_grpc s.grpc_port)
          if_dialed refl tried)
        branch
    where
      if_dialed : Bool → Held
      if_dialed b = record served { grpc = true; conn = b }

      tried :
          (x : Answer)
          → (is_layered (after_answer x (record served { grpc = true }) (dial_grpc s.grpc_port))
              ≡ true)
            × (after_answer x (record served { grpc = true }) (dial_grpc s.grpc_port)
                ≡ if_dialed (no_error x))
      tried fine = (refl, refl)
      tried no_change = (refl, refl)
      tried failed = (refl, refl)

      branch :
          (b : Bool)
          → is_layered (if_dialed b) ≡ true
          → Leaves answers
              (if_dialed b)
              (if b
                then call (serve_http s.http_port) >>= (λ (u : Unit {0}).
                  done (true, record (listening s) { grpc_conn = true; http_server = true }))
                else done (false, listening s))
              by_result
      branch true e =
          then-Leaves answers (if_dialed true) (call (serve_http s.http_port))
            (λ u. record served { grpc = true; conn = true; http = true }) _ _
            (call-Leaves answers (if_dialed true) (serve_http s.http_port) refl refl)
            (λ u e. done-Leaves answers _ _ by_result refl refl)
      branch false e = done-Leaves answers _ _ by_result refl refl

  pub start_server-Leaves :
      (grpc_port http_port : ℤ)
      → Leaves answers served (start_server answers (new_server grpc_port http_port)) by_result
  unfolding start_server new_server
  start_server-Leaves grpc_port http_port =
      then-Leaves answers served _ if_listening _ by_result
        (attempt-Leaves answers no_error served (listen_grpc grpc_port) if_listening refl tried)
        branch
    where
      if_listening : Bool → Held
      if_listening b = record served { grpc = b }

      tried :
          (x : Answer)
          → (is_layered (after_answer x served (listen_grpc grpc_port)) ≡ true)
            × (after_answer x served (listen_grpc grpc_port) ≡ if_listening (no_error x))
      tried fine = (refl, refl)
      tried no_change = (refl, refl)
      tried failed = (refl, refl)

      branch :
          (b : Bool)
          → is_layered (if_listening b) ≡ true
          → Leaves answers
              (if_listening b)
              (if b
                then call serve_grpc >>= (λ (u : Unit {0}).
                  start_gateway answers (listening (new_server grpc_port http_port)))
                else done (false, new_server grpc_port http_port))
              by_result
      branch true e =
          then-Leaves answers (if_listening true) (call serve_grpc) (λ u. if_listening true) _
            by_result (call-Leaves answers (if_listening true) serve_grpc refl refl)
            (λ u e. start_gateway-Leaves (new_server grpc_port http_port))
      branch false e = done-Leaves answers served _ by_result refl refl

  pub stop_server-Leaves :
      (s : Server)
      → is_layered (by_fields settled s) ≡ true
      → Leaves answers (by_fields settled s) (stop_server answers s) (λ u. settled)
  unfolding stop_server
  stop_server-Leaves s e =
      then-Leaves answers (by_fields settled s) _ (λ u. no_http s) _ (λ u. settled)
        (when-Leaves answers s.http_server (by_fields settled s) (no_http s) shutdown_http e
          (ground arith) (λ k. refl) (λ k. ap (λ b. record (no_http s) { http = b }) k))
        (λ u e'.
          then-Leaves answers (no_http s) _ (λ u. no_conn s) _ (λ u. settled)
            (when-Leaves answers s.grpc_conn (no_http s) (no_conn s) close_grpc_conn e'
              (ground arith) (λ k. refl) (λ k. ap (λ b. record (no_conn s) { conn = b }) k))
            (λ u e''.
              when-Leaves answers s.grpc_server (no_conn s) settled stop_grpc e'' refl (λ k. refl)
                (λ k. ap (λ b. record settled { grpc = b }) k)))
