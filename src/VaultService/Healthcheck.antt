-- ===== src/VaultService/Healthcheck.antt =====
-- The command `healthcheck` of cmd/vault-service/main.go. The reading of the environment, the flags
-- and the gRPC client for an address are parameters.
pub mod Laws
use canterbury.Base.{◌*◌, some, List, [], ◌∷◌, ◌++◌, Bytes, codes, if◌then◌else◌}
use canterbury.Base.Int.{pos}
use canterbury.Strings.Trim.{is_empty, trim_space}
use canterbury.Errors.{Result, ok, err, message, wrapping, ◌>>=◌}
use canterbury.Time.{Duration, second}
use canterbury.Context.{Context}
use canterbury.Url.{UrlLibrary, normalize_base_url}
use canterbury.Health.{new_health_service, check}
use canterbury.Health.Checkers.{GrpcClient, new_grpc_checker, check_over_grpc}
use canterbury.Health.Cli.{Config, ParseFlags, parse_config, new_cli_service, check_once}
use canterbury.VaultService.{default_vault_server_addr}
use canterbury.VaultService.Lifecycle.{vault_service_name}

abbrev pub default_health_timeout : Duration
default_health_timeout = pos (2 * second)

-- What stands in place of a blank address.
unfoldable pub url_or : Bytes → Config → Config
url_or default_url cfg = record cfg {
  url = if is_empty (trim_space cfg.url) then default_url else cfg.url;
}

config_for : (Config → Result Config) → ParseFlags → UrlLibrary → List Bytes → Bytes → Result Config
config_for process parse_flags lib args default_url =
    process (record { url = default_url; timeout = default_health_timeout }) >>= λ cfg.
    parse_config parse_flags (some (normalize_base_url lib)) args (url_or default_url cfg)

-- The first two arguments are `envconfig.Process` for the address and for the configuration.
unfoldable pub load_healthcheck_config :
    (Bytes → Result Bytes)
    → (Config → Result Config)
    → ParseFlags
    → UrlLibrary
    → List Bytes
    → Result Config
unfolding config_for
load_healthcheck_config process_addr process parse_flags lib args =
    process_addr default_vault_server_addr >>= λ address.
    let addr = trim_space address in
    if is_empty addr
    then err (message "vault service address must not be empty")
    else config_for process parse_flags lib args (codes "http://" ++ addr)

-- `dial` gives the client for an address and a timeout.
unfoldable pub healthcheck :
    (Bytes → Duration → GrpcClient)
    → (Context → Duration → Context)
    → Context
    → Config
    → Result (Unit {0})
healthcheck dial with_timeout ctx cfg =
    wrapping "initialize vault health checker"
      (new_grpc_checker (some (dial cfg.url cfg.timeout)) vault_service_name)
    >>= λ checker.
        wrapping "initialize health application"
          (new_health_service (some (check_over_grpc checker) ∷ []))
        >>= λ health.
            wrapping "initialize health service" (new_cli_service (some (check health))) >>= λ app.
            check_once with_timeout app ctx cfg.timeout
