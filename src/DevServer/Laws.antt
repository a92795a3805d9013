-- ===== src/DevServer/Laws.antt =====
-- The tokens and the keys of one server, and when the program exits with success.
use canterbury.Base.{Bool, Option, none, List, Bytes, ◌≡◌, ◌↔◌, ◌⊎◌, ap, sym, arith}
use canterbury.Errors.{Error, Result, ok, ok-inj, >>=-eq-ok, wrapping-eq-ok, wrapping}
use canterbury.Time.{Time}
use canterbury.Context.{Context}
use canterbury.Cli.Programs.{error_of}
use canterbury.Cli.Programs.Laws.{Asks, IsReady, load_local_env_iff}
use canterbury.DevAuth.{new_dev_auth_service, apply_options, mint_token}
use canterbury.DevAuth.Jwt.{Ed25519, JwtMinter, new_minter, minter_verification_key}
use canterbury.DevAuth.Jwt.Laws.{Verifies}
use canterbury.DevAuth.Keys.{KeySet, get_key_set, new_key_store_service_handler}
use canterbury.DevAuth.Rpc.{
  MintTokenRequest, MintedToken, handle_mint_token, new_dev_auth_service_handler,
}
use canterbury.DevAuth.Rpc.Laws.{service_with, IsVerifiable, handle_mint_token-IsVerifiable}
use canterbury.DevServer.{
  DevConfig, DevCommand, command_serve, DevServer, serve_with, new_dev_server, run_loaded, rest_of,
  run_command, run_args, parse_command, main_status,
}

-- A server that is made has a minter for its issuer, which signs its tokens and gives its key.
record IsServer (sha256 : Bytes → Bytes) (ed25519 : Ed25519) (now : Time) (cfg : DevConfig)
    (server : DevServer) : Type 0 where
  minter : JwtMinter
  made : new_minter sha256 ed25519 cfg.issuer ≡ ok minter
  signs : server.auth ≡ mint_token (service_with ed25519 now minter)
  keeps : server.key_store ≡ minter_verification_key minter

module _ (sha256 : Bytes → Bytes) (ed25519 : Ed25519) (now : Time) (cfg : DevConfig) where
  new_dev_server-IsServer :
      {server : DevServer}
      → new_dev_server sha256 ed25519 now cfg ≡ ok server
      → IsServer sha256 ed25519 now cfg server
  unfolding new_dev_server serve_with new_dev_auth_service apply_options
      new_dev_auth_service_handler new_key_store_service_handler
  new_dev_server-IsServer h =
      let (minter, made, h1) =
        >>=-eq-ok (wrapping "initialize minter" (new_minter sha256 ed25519 cfg.issuer)) _ h in
      let same = sym (ok-inj h1) in
      record {
        minter = minter;
        made = wrapping-eq-ok _ _ made;
        signs = ap (λ (s : DevServer). s.auth) same;
        keeps = ap (λ (s : DevServer). s.key_store) same;
      }

  -- A token that a server for development mints over RPC verifies with the one key of the key set
  -- that the same server serves over HTTP; it is signed for the claims of the request without the
  -- white space around them, and expires after now and within an hour, when the answer says. The
  -- signatures of a pair of keys verify.
  pub new_dev_server-IsVerifiable :
      {Timestamp : Type 0} (new_timestamp : Time → Timestamp)
      (verify : Bytes → Bytes → Bytes → Bool) (ctx ctx' : Context) (req : MintTokenRequest)
      {server : DevServer} {answer : MintedToken Timestamp} {jwks : KeySet}
      → Verifies ed25519 verify
      → new_dev_server sha256 ed25519 now cfg ≡ ok server
      → handle_mint_token new_timestamp server.auth ctx req ≡ ok answer
      → get_key_set server.key_store ctx' ≡ ok jwks
      → (minter : JwtMinter) × (new_minter sha256 ed25519 cfg.issuer ≡ ok minter)
        × IsVerifiable new_timestamp sha256 ed25519 verify cfg.issuer now minter req answer jwks
  new_dev_server-IsVerifiable new_timestamp verify ctx ctx' req verifies built minted served =
      let s = new_dev_server-IsServer built in
      (
        s.minter,
        s.made,
        handle_mint_token-IsVerifiable new_timestamp sha256 ed25519 verify cfg.issuer now ctx ctx'
            req verifies s.made (rw s.signs at minted) (rw s.keeps at served),
      )

-- A configuration that is asked for help, or that is served without an error.
abbrev pub Serves : Result DevConfig → (DevConfig → Result (Unit {0})) → Type 0
Serves loaded serve = Asks loaded ⊎ ((cfg : DevConfig) × (loaded ≡ ok cfg) × (serve cfg ≡ ok tt))

run_loaded_iff :
    (serve : DevConfig → Result (Unit {0})) (loaded : Result DevConfig)
    → (run_loaded serve loaded ≡ none) ↔ Serves loaded serve
unfolding run_loaded error_of
run_loaded_iff serve loaded = ground arith

run_command_iff :
    (dotenv : Option Error) (load_config : List Bytes → Result DevConfig)
    (serve : DevConfig → Result (Unit {0})) (args : List Bytes) (parsed : Result DevCommand)
    → (run_command dotenv load_config serve args parsed ≡ none) ↔ (
        Asks parsed
        ⊎ ((parsed ≡ ok command_serve)
            × IsReady dotenv
            × Serves (load_config (rest_of args)) serve))
unfolding run_command
run_command_iff dotenv load_config serve args parsed =
    let loaded = run_loaded_iff serve (load_config (rest_of args)) in
    let env = load_local_env_iff dotenv in ground (arith, loaded, env)

-- The program exits with status 0 exactly when help is asked for in place of a command, or when the
-- command is `serve`, the file of the environment is loaded or absent, and the flags ask for help or
-- give a configuration that is served without an error.
dev-run_iff :
    (dotenv : Option Error) (load_config : List Bytes → Result DevConfig)
    (serve : DevConfig → Result (Unit {0})) (lower_unicode : Bytes → Bytes) (args : List Bytes)
    → let parsed = parse_command lower_unicode args in
      (main_status (run_args dotenv load_config serve lower_unicode args) ≡ 0) ↔ (
        Asks parsed
        ⊎ ((parsed ≡ ok command_serve)
            × IsReady dotenv
            × Serves (load_config (rest_of args)) serve))
unfolding run_args main_status
dev-run_iff dotenv load_config serve lower_unicode args =
    ground (arith, run_command_iff dotenv load_config serve args (parse_command lower_unicode args))
