-- ===== src/McpServer/Healthcheck.antt =====
-- The command `healthcheck` of cmd/mcp-server/main.go. The reading of the environment, the flags, the
-- package `net/url` and the HTTP client are parameters.
pub mod Laws
use canterbury.Base.{some, List, [], ◌∷◌, ◌++◌, Bytes, codes, if◌then◌else◌}
use canterbury.Strings.Trim.{is_empty, trim_space}
use canterbury.Errors.{Result, ok, err, message, wrapping, ◌>>=◌}
use canterbury.Time.{Duration}
use canterbury.Context.{Context}
use canterbury.Url.{Url, UrlLibrary, normalize_health_url}
use canterbury.Health.{new_health_service, check}
use canterbury.Health.Http.{HttpChecker, check_over_http}
use canterbury.Health.Cli.{Config, ParseFlags, parse_config, new_cli_service, check_once}
use canterbury.VaultService.Healthcheck.{default_health_timeout, url_or}
use canterbury.McpServer.{default_mcp_server_addr}

abbrev pub health_path : Bytes
health_path = codes "/health"

mcp_config_for :
    (Config → Result Config) → ParseFlags → UrlLibrary → List Bytes → Bytes → Result Config
mcp_config_for process parse_flags lib args default_url =
    process (record { url = default_url; timeout = default_health_timeout }) >>= λ cfg.
    parse_config parse_flags (some (normalize_health_url lib)) args (url_or default_url cfg)

-- The first two arguments are `envconfig.Process` for the address and for the configuration.
unfoldable pub load_mcp_healthcheck_config :
    (Bytes → Result Bytes)
    → (Config → Result Config)
    → ParseFlags
    → UrlLibrary
    → List Bytes
    → Result Config
unfolding mcp_config_for
load_mcp_healthcheck_config process_addr process parse_flags lib args =
    process_addr default_mcp_server_addr >>= λ address.
    let addr = trim_space address in
    if is_empty addr
    then err (message "MCP server address must not be empty")
    else mcp_config_for process parse_flags lib args
        (codes "http://" ++ (addr ++ (health_path ++ codes "/live")))

-- `dial` gives the checker for an address and a timeout, which `NewChecker` makes of an address and a
-- client that are not nil.
unfoldable pub mcp_healthcheck :
    UrlLibrary
    → (Url → Duration → HttpChecker)
    → (Context → Duration → Context)
    → Context
    → Config
    → Result (Unit {0})
mcp_healthcheck lib dial with_timeout ctx cfg =
    wrapping "parse health URL" (lib.parse cfg.url) >>= λ url.
    wrapping "initialize health application"
      (new_health_service (some (check_over_http (dial url cfg.timeout)) ∷ []))
    >>= λ health.
        wrapping "initialize health service" (new_cli_service (some (check health))) >>= λ app.
        check_once with_timeout app ctx cfg.timeout
