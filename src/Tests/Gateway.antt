-- ===== src/Tests/Gateway.antt =====
-- The MCP server while it drains.
use canterbury.Base.{codes, false, none, ◌≡◌, refl, ◌↔◌}
use canterbury.Errors.{Error, Result, ok, err, message}
use canterbury.Context.{background}
use canterbury.Base.{Option, some, List, =s=_refl, if◌then◌else◌, ◌=s=◌, Bytes, true, [], ◌∷◌, ◌*◌}
use canterbury.Base.Int.{pos}
use canterbury.Strings.Utf8.{rune_size}
use canterbury.Encoding.Json.{
  print, print_members, print_string, escape_from, escape_rune, escape_byte,
}
use canterbury.Time.{second}
use canterbury.Url.{Url, UrlLibrary}
use canterbury.Health.{check}
use canterbury.Health.Http.Laws.{asking, Decodes}
use canterbury.Health.Checkers.{GrpcStatus, GrpcClient, check_static, check_over_grpc}
use canterbury.Health.Cli.{Config, is_positive}
use canterbury.McpServer.Healthcheck.{mcp_healthcheck}
use canterbury.McpServer.Healthcheck.Laws.{mcp_healthcheck_iff}
use canterbury.McpServer.Laws.{built}
use canterbury.Health.{status_not_serving, status_serving, status_unknown}
use canterbury.Health.Http.{
  HealthHandler, serve_health, method_get, health_response_from_domain, marshal_response,
}
use canterbury.Health.Checkers.{new_static_checker, set_not_serving}
use canterbury.VaultService.Lifecycle.{
  StaticHealth, vault_service_name, Event, signalled, started, listening, draining, health_client,
}
use canterbury.VaultService.Lifecycle
use canterbury.VaultService.Lifecycle.Laws.{KeepsStatus}
use canterbury.McpServer.{
  health_handler, McpProcess, mcp_started, drain, McpRun, stay, step, interrupted,
}
use canterbury.McpServer.Laws.{ready_iff}

abbrev status_or : Option GrpcStatus → Result GrpcStatus
status_or none = err (message "unknown service")
status_or (some status) = ok status

-- A checker that knows the statuses by a function of the name.
abbrev static_health : StaticHealth
static_health = record {
  Statuses = Bytes → Option GrpcStatus;
  new_statuses = λ name. none;
  set_status = λ statuses name status asked. if asked =s= name then some status else statuses asked;
  check = λ statuses ctx name. status_or (statuses name);
}

keeps : KeepsStatus static_health
keeps statuses name status ctx = rw (=s=_refl name) refl

-- A process of the vault service that was signalled.
abbrev vault_events : List Event
vault_events = signalled ∷ []

abbrev refused : Error
refused = message "connection refused"

abbrev mcp_drains : McpProcess
mcp_drains = record {
  phase = draining;
  checker = record { status = status_not_serving };
  requests_cancelled = false;
}

run_to_mcp_drains : McpRun mcp_started mcp_drains
unfolding mcp_started drain new_static_checker set_not_serving
run_to_mcp_drains = step (interrupted refl) stay

ready_iff_example :
    (mcp_drains.requests_cancelled ≡ false)
    × ((handler : HealthHandler) × (health_handler
            (health_client static_health refused
              (Lifecycle.run static_health (started static_health) vault_events))
            mcp_drains.checker
          ≡ ok handler)
        × (((serve_health handler.live method_get background).code ≡ 200)
            ↔ ((background.cancelled ≡ none) × (mcp_drains.phase ≡ listening)))
        × (((serve_health handler.ready method_get background).code ≡ 200) ↔ (
            (background.cancelled ≡ none)
            × (mcp_drains.phase ≡ listening)
            × ((Lifecycle.run static_health (started static_health) vault_events).phase
                ≡ listening))))
ready_iff_example =
    ready_iff static_health keeps refused run_to_mcp_drains vault_events background (λ result e. cc)

abbrev url : Url
url = record {
  scheme = codes "http";
  host = codes "127.0.0.1:50053";
  has_user = false;
  path = codes "/health/live";
  raw_query = [];
  fragment = [];
}

abbrev lib : UrlLibrary
lib = record { parse = λ text. ok url; text = λ u. u.host }

abbrev cfg : Config
cfg = record { url = codes "http://127.0.0.1:50053/health/live"; timeout = pos (2 * second) }

abbrev client : GrpcClient
client = health_client static_health refused (started static_health)

abbrev handler : HealthHandler
handler = record {
  live = check (record { checkers = check_static mcp_drains.checker ∷ [] });
  ready = check (record {
    checkers =
        check_static mcp_drains.checker
        ∷ check_over_grpc (record { client = client; service = vault_service_name })
        ∷ [];
  });
}

abbrev unmarshal : Bytes → Result Bytes
unmarshal body =
    if body =s= codes "{\"status\":\"SERVING\"}"
    then ok (codes "SERVING")
    else if body =s= codes "{\"status\":\"NOT_SERVING\"}"
    then ok (codes "NOT_SERVING")
    else ok (codes "UNKNOWN")

decodes : Decodes unmarshal
unfolding health_response_from_domain marshal_response print print_members print_string escape_from
    escape_rune escape_byte rune_size ◌=s=◌
decodes status_not_serving = refl
decodes status_serving = refl
decodes status_unknown = refl

mcp_healthcheck_iff_example :
    (mcp_healthcheck lib
        (λ u timeout. asking handler.live unmarshal background)
        (λ ctx timeout. ctx)
        background
        cfg
      ≡ ok tt)
    ↔ ((is_positive cfg.timeout ≡ true)
        × (background.cancelled ≡ none)
        × (mcp_drains.phase ≡ listening))
mcp_healthcheck_iff_example =
    mcp_healthcheck_iff lib (λ ctx timeout. ctx) background unmarshal client cfg url decodes refl
      run_to_mcp_drains (λ result e. cc) handler (built client mcp_drains.checker) background refl
