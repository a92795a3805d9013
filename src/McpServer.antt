-- ===== src/McpServer.antt =====
-- cmd/mcp-server/main.go: its configuration, the health that it announces, and its life from start to
-- end. The reading of the environment and the clients of the vault service are parameters.
pub mod Laws
pub mod Healthcheck
use canterbury.Base.{
  Bool, true, false, Option, none, some, List, [], ◌∷◌, Bytes, codes, ◌≡◌, if◌then◌else◌,
}
use canterbury.Strings.Trim.{is_empty, trim_space}
use canterbury.Errors.{Error, Result, ok, err, message, wrap, wrapping, is, server_closed, ◌>>=◌}
use canterbury.Time.{Duration}
use canterbury.Url.{UrlLibrary, normalize_base_url}
use canterbury.Health.{new_health_service, check}
use canterbury.Health.Http.{HealthHandler, new_health_handler}
use canterbury.Health.Checkers.{
  GrpcClient, new_grpc_checker, check_over_grpc, StaticChecker, new_static_checker, check_static,
  set_not_serving,
}
use canterbury.Health.Cli.{is_positive}
use canterbury.VaultService.Lifecycle.{vault_service_name, Phase, listening, draining, ended}

pub record McpConfig : Type 0 where
  pub addr : Bytes
  pub vault_base_url : Bytes
  pub vault_request_timeout : Duration

abbrev pub default_mcp_server_addr : Bytes
default_mcp_server_addr = codes "127.0.0.1:50053"

unfoldable pub validate_serve_config : UrlLibrary → McpConfig → Result McpConfig
validate_serve_config lib cfg =
    let addr = trim_space cfg.addr in
    if is_empty addr
    then err (message "MCP server address must not be empty")
    else wrapping "validate vault base URL" (normalize_base_url lib cfg.vault_base_url)
      >>= λ base_url.
          if is_positive cfg.vault_request_timeout
          then ok (record cfg { addr = addr; vault_base_url = base_url })
          else err (message "vault request timeout must be positive")

-- The first argument is `envconfig.Process`.
unfoldable pub load_mcp_config :
    (McpConfig → Result McpConfig) → UrlLibrary → List Bytes → McpConfig → Result McpConfig
load_mcp_config process lib (argument ∷ args) zero_config =
    err (message "unexpected serve argument")
load_mcp_config process lib [] zero_config =
    process (record zero_config { addr = default_mcp_server_addr }) >>= λ cfg.
    validate_serve_config lib cfg

-- The two health endpoints: the process itself, and the process with the vault service.
unfoldable pub health_handler : GrpcClient → StaticChecker → Result HealthHandler
health_handler client checker =
    wrapping "initialize vault health checker" (new_grpc_checker (some client) vault_service_name)
    >>= λ vault_checker.
        wrapping "initialize health service for live checks"
          (new_health_service (some (check_static checker) ∷ []))
        >>= λ live_service.
            wrapping "initialize health service for ready checks" (
              new_health_service
                (some (check_static checker) ∷ some (check_over_grpc vault_checker) ∷ []))
            >>= λ ready_service.
                wrapping "initialize health handler"
                  (new_health_handler (some (check live_service)) (some (check ready_service)))

-- `requests_cancelled` tells whether the context of the requests that run is cancelled.
pub record McpProcess : Type 0 where
  pub phase : Phase
  pub checker : StaticChecker
  pub requests_cancelled : Bool

unfoldable pub mcp_started : McpProcess
mcp_started = record { phase = listening; checker = new_static_checker; requests_cancelled = false }

unfoldable pub mcp_listen_result : Error → Result (Unit {0})
mcp_listen_result e = if is e server_closed then ok tt else err (wrap "serve MCP HTTP" e)

-- The answers of `Shutdown` and of `Close`, which follows a failure of the first; `errors.Join` is a
-- parameter.
unfoldable pub mcp_shutdown_result :
    (Error → Error → Error) → Option Error → Option Error → Result (Unit {0})
mcp_shutdown_result join none closed = ok tt
mcp_shutdown_result join (some e) none = err (wrap "shut down MCP server" e)
mcp_shutdown_result join (some e) (some x) = err (wrap "shut down MCP server" (join e x))

-- `cancelRequests`, called or deferred, and the end.
unfoldable pub mcp_end_with : McpProcess → Result (Unit {0}) → McpProcess
mcp_end_with process result = record process { phase = ended result; requests_cancelled = true }

unfoldable pub drain : McpProcess → McpProcess
drain process = record process { phase = draining; checker = set_not_serving process.checker }

-- The branches of `select`, and the shutdown that follows the first.
pub data McpStep : McpProcess → McpProcess → Type 0 where
  interrupted : {process : McpProcess} → process.phase ≡ listening → McpStep process (drain process)
  failed :
      {process : McpProcess} (e : Error)
      → process.phase ≡ listening
      → McpStep process (mcp_end_with process (mcp_listen_result e))
  drained :
      {process : McpProcess} (join : Error → Error → Error) (stopped closed : Option Error)
      → process.phase ≡ draining
      → McpStep process (mcp_end_with process (mcp_shutdown_result join stopped closed))

pub data McpRun : McpProcess → McpProcess → Type 0 where
  stay : {p : McpProcess} → McpRun p p
  step : {p q r : McpProcess} → McpStep p q → McpRun q r → McpRun p r
