-- ===== src/Cli/Programs.antt =====
-- `run` and the commands of cmd/vault-service/main.go and cmd/mcp-server/main.go, which differ in the
-- texts of their errors. What loads a configuration and what serves are arguments.
pub mod Laws
use canterbury.Base.{String, Option, none, some, List, [], ◌∷◌, Bytes, codes, if◌then◌else◌}
use canterbury.Errors.{Error, Result, ok, err, wrap, wrapping, is, not_exist, ◌>>=◌}
use canterbury.Context.{Context}
use canterbury.Cli.{Handler, Command, Application}

-- With the answer of `godotenv.Load`. A file that does not exist is no error.
unfoldable pub load_local_env : Option Error → Option Error
load_local_env none = none
load_local_env (some e) = if is e not_exist then none else some (wrap "load dotenv configuration" e)

-- `none` is the nil error.
unfoldable pub error_of : Result (Unit {0}) → Option Error
error_of (ok done) = none
error_of (err e) = some e

module _ {Config : Type 0} where
  unfoldable pub run_serve_command :
      String
      → String
      → (List Bytes → Result Config)
      → (Context → Config → Result (Unit {0}))
      → Handler
  run_serve_command loading stopped load_serve_config serve ctx args =
      error_of
        (wrapping loading (load_serve_config args) >>= λ cfg. wrapping stopped (serve ctx cfg))

  unfoldable pub run_healthcheck_command :
      (List Bytes → Result Config) → (Context → Config → Result (Unit {0})) → Handler
  run_healthcheck_command load_healthcheck_config healthcheck ctx args = error_of (
      wrapping "load healthcheck configuration" (load_healthcheck_config args) >>= λ cfg.
      healthcheck ctx cfg)

abbrev pub serve_name : Bytes
serve_name = codes "serve"

abbrev pub healthcheck_name : Bytes
healthcheck_name = codes "healthcheck"

abbrev pub commands_of : Handler → Handler → List Command
commands_of serve healthcheck =
    record { name = serve_name; run = some serve }
    ∷ record { name = healthcheck_name; run = some healthcheck }
    ∷ []

unfoldable pub service_program : Option Error → Handler → Handler → Application
service_program dotenv serve healthcheck = record {
  default_command = serve_name;
  commands = commands_of serve healthcheck;
  prepare = some (load_local_env dotenv);
}
