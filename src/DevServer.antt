-- ===== src/DevServer.antt =====
-- cmd/dev-auth/main.go: the program that mints tokens for development. The reading of the
-- environment, the flags and the HTTP server are parameters.
pub mod Laws
use canterbury.Base.{
  ℕ, Bool, ◌||◌, Option, none, some, List, [], ◌∷◌, Bytes, codes, ◌=s=◌, if◌then◌else◌,
}
use canterbury.Strings.Trim.{is_empty, trim_space}
use canterbury.Strings.Case.{to_lower}
use canterbury.Errors.{
  Error, Result, ok, err, message, wrap, wrapping, sentinel, is, flag_help, server_closed, ◌>>=◌,
}
use canterbury.Time.{Time}
use canterbury.Cli.Programs.{load_local_env, error_of}
use canterbury.DevAuth.{DevAuthService, new_dev_auth_service, mint_token}
use canterbury.DevAuth.Jwt.{
  Ed25519, JwtMinter, VerificationKey, new_minter, mint_jwt, minter_verification_key,
}
use canterbury.DevAuth.Rpc.{AuthApplication, new_dev_auth_service_handler}
use canterbury.DevAuth.Keys.{new_key_store_service_handler}

pub record DevConfig : Type 0 where
  pub addr : Bytes
  pub issuer : Bytes

-- The one command of the program, so that the default case of `runArgs` is not reached.
pub data DevCommand : Type 0 where
  command_serve : DevCommand

abbrev asks_for_help : Bytes → Bool
asks_for_help name = name =s= codes "-h" || name =s= codes "--help" || name =s= codes "help"

unfoldable pub parse_command : (Bytes → Bytes) → List Bytes → Result DevCommand
parse_command lower_unicode [] = err (message "no arguments passed")
parse_command lower_unicode (first ∷ args) =
    let name = to_lower lower_unicode (trim_space first) in
    if asks_for_help name
    then err (sentinel flag_help)
    else if name =s= codes "serve"
    then ok command_serve
    else err (wrap "parsing command" (message "unknown command"))

-- `flags.Parse`: the values of the flags, the given ones where a flag is absent, and the arguments
-- that are left.
abbrev pub ParseDevFlags : Type 0
ParseDevFlags = List Bytes → DevConfig → Result (DevConfig × List Bytes)

unfoldable pub check_dev_config : DevConfig × List Bytes → Result DevConfig
check_dev_config (cfg, argument ∷ rest) = err (message "unexpected serve argument")
check_dev_config (cfg, []) =
    if is_empty (trim_space cfg.addr) then err (message "address must not be empty") else ok cfg

-- The first argument is `envconfig.Process`.
unfoldable pub load_dev_config :
    (DevConfig → Result DevConfig) → ParseDevFlags → List Bytes → Result DevConfig
load_dev_config process parse_flags args = process (record { addr = []; issuer = [] }) >>= λ cfg.
    parse_flags args cfg >>= λ parsed. check_dev_config parsed

-- The two services that are put before the HTTP server. `VerificationKey` of the application is that
-- of its minter.
pub record DevServer : Type 0 where
  pub auth : AuthApplication
  pub key_store : VerificationKey

-- What ends the server: a signal, with the answer of `Shutdown`, or an answer of `ListenAndServe`.
pub data DevEnd : Type 0 where
  interrupted : Option Error → DevEnd
  listened : Error → DevEnd

-- The branches of `select`.
unfoldable pub end_result : DevEnd → Result (Unit {0})
end_result (interrupted none) = ok tt
end_result (interrupted (some e)) = err e
end_result (listened e) = if is e server_closed then ok tt else err e

module _ (sha256 : Bytes → Bytes) (ed25519 : Ed25519) (now : Time) where
  unfoldable pub serve_with : JwtMinter → DevAuthService → Result DevServer
  serve_with minter service =
      wrapping "initialize auth connect service"
        (new_dev_auth_service_handler (some (mint_token service)))
      >>= λ auth.
          wrapping "initialize JWKS service"
            (new_key_store_service_handler (some (minter_verification_key minter)))
          >>= λ key_store. ok (record { auth = auth; key_store = key_store })

  unfoldable pub new_dev_server : DevConfig → Result DevServer
  new_dev_server cfg =
      wrapping "initialize minter" (new_minter sha256 ed25519 cfg.issuer) >>= λ minter.
      wrapping "initialize app service"
        (new_dev_auth_service now (some (mint_jwt ed25519 minter)) [])
      >>= λ service. serve_with minter service

  unfoldable pub serve_dev : (DevServer → DevEnd) → DevConfig → Result (Unit {0})
  serve_dev ends cfg = new_dev_server cfg >>= λ server. end_result (ends server)

unfoldable pub run_loaded : (DevConfig → Result (Unit {0})) → Result DevConfig → Option Error
run_loaded serve (err e) =
    if is e flag_help then none else some (wrap "parse serve configuration" e)
run_loaded serve (ok cfg) = error_of (wrapping "start server" (serve cfg))

-- The arguments without the first one.
unfoldable pub rest_of : List Bytes → List Bytes
rest_of [] = []
rest_of (first ∷ args) = args

module _ (dotenv : Option Error) (load_config : List Bytes → Result DevConfig)
    (serve : DevConfig → Result (Unit {0})) where
  unfoldable pub run_command : List Bytes → Result DevCommand → Option Error
  run_command args (err e) = if is e flag_help then none else some (wrap "parse CLI command" e)
  run_command args (ok command_serve) = elim (load_local_env dotenv) [
    | some e ↦ some e
    | none ↦ run_loaded serve (load_config (rest_of args))
  ]

  unfoldable pub run_args : (Bytes → Bytes) → List Bytes → Option Error
  run_args lower_unicode args = run_command args (parse_command lower_unicode args)

-- The exit status that `main` gives to the answer of `run`.
unfoldable pub main_status : Option Error → ℕ
main_status none = 0
main_status (some e) = 1
