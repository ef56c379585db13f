-- ===== src/Server/Lifecycle.antt =====
-- api/server.go: `Run` and `Shutdown`. `http.Server` is the record `HttpServer`; what `ListenAndServe`
-- and its `Shutdown` do is a parameter.
use Prim.Native.String as Text
use managed_services_lib.Common.{ℕ, ◌*◌, String, Option, none, some}
use managed_services_lib.Common.Decimal.{show_int}
use managed_services_lib.Config.{Config}
use managed_services_lib.Failure.{Error}
use managed_services_lib.Client.Api.{Action}
use managed_services_lib.JobRunner.Types.{second}

-- The fields that `Run` sets; timeouts in nanoseconds.
pub record HttpServer : Type 0 where
  pub addr : String
  pub read_timeout : ℕ
  pub write_timeout : ℕ
  pub idle_timeout : ℕ
  pub read_header_timeout : ℕ

-- The fields of `Server` that `Run` and `Shutdown` use.
pub record Server : Type 0 where
  pub cfg : Config
  pub http_server : Option HttpServer

abbrev http_server_for : Config → HttpServer
http_server_for cfg = record {
  addr = Text.◌++◌ ":" (show_int cfg.port);
  read_timeout = 15 * second;
  write_timeout = 15 * second;
  idle_timeout = 60 * second;
  read_header_timeout = 5 * second;
}

-- What `Run` makes of the server, and what `Shutdown` finds while it serves.
unfoldable pub prepare : Server → Server
prepare server = record server { http_server = some (http_server_for server.cfg) }

module _ {S : Type 0} (listen_and_serve : HttpServer → Action S (Option Error))
    (shutdown_http : HttpServer → Action S (Option Error)) where
  -- `Run`, which returns once the server is stopped.
  unfoldable pub run : Server → S → Server × (Option Error × S)
  unfolding prepare
  run server s = (prepare server, listen_and_serve (http_server_for server.cfg) s)

  unfoldable pub shutdown : Server → Action S (Option Error)
  shutdown server s = elim server.http_server [
    | none ↦ (none, s)
    | some http ↦ shutdown_http http s
  ]
