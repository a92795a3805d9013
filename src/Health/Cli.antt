-- ===== src/Health/Cli.antt =====
-- internal/interfaces/healthcli: the health command. The parsing of flags is a parameter.
pub mod Laws
use canterbury.Base.{ℕ, Bool, false, Option, none, some, List, [], ◌∷◌, Bytes, if◌then◌else◌}
use canterbury.Base.Int.{pos, negsuc}
use canterbury.Errors.{Result, ok, err, message, sentinel, wrapping, healthcheck_failed, ◌>>=◌}
use canterbury.Time.{Duration}
use canterbury.Context.{Context}
use canterbury.Health.{is_serving, HealthResult}
use canterbury.Health.Http.{HealthApplication}

pub record Config : Type 0 where
  pub url : Bytes
  pub timeout : Duration

-- `flags.Parse`: the values of the flags, the given ones where a flag is absent, and the arguments
-- that are left.
abbrev pub ParseFlags : Type 0
ParseFlags = List Bytes → Config → Result (Config × List Bytes)

abbrev pub is_positive : Duration → Bool
is_positive (pos ℕ.zero) = false
is_positive (pos (ℕ.suc n)) = Bool.true
is_positive (negsuc n) = false

unfoldable pub validate_config : Option (Bytes → Result Bytes) → Config × List Bytes → Result Config
validate_config normalize_url (cfg, argument ∷ rest) =
    err (message "unexpected healthcheck argument")
validate_config none (cfg, []) = err (message "health URL normalizer is required")
validate_config (some normalize_url) (cfg, []) =
    wrapping "validate health URL" (normalize_url cfg.url) >>= λ url.
    if is_positive cfg.timeout
    then ok (record { url = url; timeout = cfg.timeout })
    else err (message "healthcheck timeout must be positive")

unfoldable pub parse_config :
    ParseFlags → Option (Bytes → Result Bytes) → List Bytes → Config → Result Config
parse_config parse_flags normalize_url args cfg =
    parse_flags args cfg >>= λ parsed. validate_config normalize_url parsed

unfoldable pub serving_result : Result HealthResult → Bool
serving_result (err e) = false
serving_result (ok result) = is_serving result.status

unfoldable pub serving : HealthApplication → Context → Bool
serving app ctx = serving_result (app ctx)

-- The first argument is `context.WithTimeout`.
unfoldable pub check_once :
    (Context → Duration → Context) → HealthApplication → Context → Duration → Result (Unit {0})
check_once with_timeout app ctx timeout =
    if is_positive timeout
    then (if serving app (with_timeout ctx timeout)
        then ok tt
        else err (sentinel healthcheck_failed))
    else err (message "healthcheck timeout must be positive")

-- `NewService`: `none` is a nil application.
unfoldable pub new_cli_service : Option HealthApplication → Result HealthApplication
new_cli_service none = err (message "health application must not be nil")
new_cli_service (some app) = ok app
