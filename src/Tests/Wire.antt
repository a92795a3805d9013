-- ===== src/Tests/Wire.antt =====
-- The parts that face a network, and the commands.
use canterbury.Base.{
  ℕ, ◌*◌, ◌<◌, ◌^◌, ◌⊎◌, none, some, true, List, [], ◌∷◌, Bytes, codes, ◌≡◌, refl, ◌↔◌, ◌=s=◌,
  =s=_refl, ◌+◌, if◌then◌else◌, Bool,
}
use canterbury.Base.Int.{pos}
use canterbury.Strings.Trim.{trimming}
use canterbury.Errors.{Error, Result, ok, err, message}
use canterbury.Time.{Time, second}
use canterbury.Context.{background}
use canterbury.Strings.Case.{to_lower, lower_byte}
use canterbury.Encoding.Base64.{base64_digit, raw_url_encode}
use canterbury.Health.Checkers.{GrpcStatus}
use canterbury.DevAuth.{mint_token, format_audiences, expiry_for_ttl}
use canterbury.DevAuth.Jwt.{
  Ed25519, JwtMinter, new_minter, minter_with_keys, minter_verification_key, build_jwt, header_of,
  payload_of, mint_jwt,
}
use canterbury.DevAuth.Jwt.Laws.{Verifies}
use canterbury.DevAuth.Keys.{KeySet, get_key_set, verification_key_to_jwk, set_ed25519_key}
use canterbury.DevAuth.Rpc.{
  MintTokenRequest, MintedToken, mint_options_from_proto, claims_from_proto,
  mint_token_request_to_domain, mint_for, mint_answer, minted_token_to_proto, handle_mint_token,
}
use canterbury.DevAuth.Rpc.Laws.{service_with, IsVerifiable, mint_options_from_proto_iff}
use canterbury.Health.Cli.{Config, is_positive}
use canterbury.VaultService.Lifecycle.{
  StaticHealth, Event, signalled, listened, shut_down, ended, listening, started, health_client,
}
use canterbury.VaultService.Lifecycle
use canterbury.VaultService.Lifecycle.Laws.{KeepsStatus, Announces}
use canterbury.VaultService.Lifecycle.Ends.{EndsWith, started-EndsWith}
use canterbury.VaultService.Healthcheck.{healthcheck}
use canterbury.VaultService.Healthcheck.Laws.{healthcheck_iff}
use canterbury.Cli.{
  Application, help, named, command, run, run_parsed, run_found, find_command, prepared,
  run_handler, exit_status,
}
use canterbury.Cli.Programs.{
  service_program, load_local_env, error_of, run_serve_command, serve_name, healthcheck_name,
}
use canterbury.Cli.Programs.Laws.{service, Finishes, IsReady, service-run_iff}
use canterbury.DevAuth.{new_dev_auth_service, apply_options}
use canterbury.DevAuth.Rpc.{new_dev_auth_service_handler}
use canterbury.DevAuth.Keys.{new_key_store_service_handler}
use canterbury.DevServer.{DevServer, new_dev_server, serve_with}
use canterbury.DevServer.Laws.{new_dev_server-IsVerifiable}
use canterbury.Context.{Context}
use canterbury.Errors.{sentinel, not_exist, is}
use canterbury.Base.{Option}
use canterbury.Bearer.{Header, authorization, bearer_token}
use canterbury.Health.Http.{Reply, http_error}
use canterbury.McpHttp.{RequestMetadata, require_bearer, forward_metadata, unauthorized}
use canterbury.McpHttp.Laws.{IsForwarded, new_request, require_bearer-IsForwarded}

abbrev status_or : Option GrpcStatus → Result GrpcStatus
status_or none = err (message "unknown service")
status_or (some status) = ok status

-- A checker that knows the statuses by a function of the name.
abbrev static_health : StaticHealth
static_health = record {
  Statuses = Bytes → Option GrpcStatus;
  new_statuses = λ name. none;
  set_status = λ statuses name status asked. if asked =s= name then some status else statuses asked;
  check = λ statuses ctx name. status_or (statuses name);
}

keeps : KeepsStatus static_health
keeps statuses name status ctx = rw (=s=_refl name) refl

-- A signal, one more, and a shutdown that succeeds.
abbrev events : List Event
events = signalled ∷ signalled ∷ shut_down (λ timeout. none) ∷ []

started-EndsWith_example :
    Announces static_health keeps (Lifecycle.run static_health (started static_health) events)
    × (((Lifecycle.run static_health (started static_health) events).phase ≡ ended (ok tt))
        ↔ EndsWith events (ok tt))
started-EndsWith_example = started-EndsWith static_health keeps events (ok tt)

abbrev cfg : Config
cfg = record { url = codes "http://127.0.0.1:50051"; timeout = pos (2 * second) }

abbrev refused : Error
refused = message "connection refused"

abbrev drains : List Event
drains = signalled ∷ []

healthcheck_iff_example :
    (healthcheck
        (λ url timeout.
          health_client static_health refused
            (Lifecycle.run static_health (started static_health) drains))
        (λ ctx timeout. ctx)
        background
        cfg
      ≡ ok tt)
    ↔ ((is_positive cfg.timeout ≡ true)
        × (background.cancelled ≡ none)
        × ((Lifecycle.run static_health (started static_health) drains).phase ≡ listening))
healthcheck_iff_example =
    healthcheck_iff (λ ctx timeout. ctx) background cfg static_health keeps refused drains

abbrev load : List Bytes → Result Config
load args = ok cfg

abbrev serve_nothing : Context → Config → Result (Unit {0})
serve_nothing ctx c = ok tt

abbrev absent : Option Error
absent = some (sentinel not_exist)

abbrev program : Application
program = service (λ s. s) absent "load" "stopped" load serve_nothing load serve_nothing background

run_program : run (λ s. s) program background (codes " SERVE " ∷ []) ≡ 0
unfolding run run_parsed command run_found find_command prepared run_handler exit_status to_lower
    lower_byte trimming service_program load_local_env run_serve_command error_of is ◌=s=◌
run_program = refl

service-run_iff_example :
    (command (λ s. s) program [] ≡ named serve_name [])
    × ((run (λ s. s) program background (codes " SERVE " ∷ []) ≡ 0) ↔ (
        (command (λ s. s) program (codes " SERVE " ∷ []) ≡ help)
        ⊎ ((rest : List Bytes) × IsReady absent
            × (((command (λ s. s) program (codes " SERVE " ∷ []) ≡ named serve_name rest)
                  × Finishes (load rest) (serve_nothing background))
                ⊎ ((command (λ s. s) program (codes " SERVE " ∷ []) ≡ named healthcheck_name rest)
                    × Finishes (load rest) (serve_nothing background))))))
service-run_iff_example =
    service-run_iff (λ s. s) absent "load" "stopped" load serve_nothing load serve_nothing
      background (codes " SERVE " ∷ [])

abbrev header : Header
header name = if name =s= authorization then codes "bearer abc" ∷ [] else codes "x" ∷ []

abbrev serve_mcp : RequestMetadata → Reply
serve_mcp metadata = http_error 200 metadata.bearer_token

abbrev call_vault : Header → Result Bytes
call_vault onward = bearer_token onward

require_bearer-IsForwarded_example :
    ((e : Error) × (bearer_token header ≡ err e) × (require_bearer serve_mcp header ≡ unauthorized))
    ⊎ ((token : Bytes) × (metadata : RequestMetadata) × (onward : Header) × (bearer_token header
          ≡ ok token)
        × (require_bearer serve_mcp header ≡ serve_mcp metadata)
        × (forward_metadata (codes "mcp") (some metadata) call_vault new_request
            ≡ call_vault onward)
        × IsForwarded (λ s. s) (codes "mcp") token header onward)
require_bearer-IsForwarded_example =
    require_bearer-IsForwarded (λ s. s) (codes "mcp") serve_mcp call_vault header

mint_options_from_proto_iff_example :
    (mint_options_from_proto (some (pos 60)) ≡ ok (record { ttl = pos (60 * second) }))
    ↔ ((n : ℕ) × (pos 60 ≡ pos n) × (n * second < 2 ^ 63) × (pos (60 * second) ≡ pos (n * second)))
mint_options_from_proto_iff_example =
    mint_options_from_proto_iff (pos 60) (record { ttl = pos (60 * second) })

-- A key pair with which the signature of a text is the text.
abbrev ed25519 : Ed25519
ed25519 = record {
  generate_key = ok (codes "0123456789abcdef0123456789abcdef", codes "private");
  sign = λ key text. text;
}

abbrev verify : Bytes → Bytes → Bytes → Bool
verify key text signature = text =s= signature

verifies : Verifies ed25519 verify
verifies public_key private_key text made = =s=_refl text

abbrev minter : JwtMinter
minter = record {
  issuer = codes "dev";
  key_id = codes "YWI";
  public_key = codes "0123456789abcdef0123456789abcdef";
  private_key = codes "private";
}

made_minter : new_minter (λ s. codes "ab") ed25519 (codes " dev ") ≡ ok minter
unfolding new_minter minter_with_keys raw_url_encode base64_digit trimming
made_minter = refl

abbrev mint_request : MintTokenRequest
mint_request = record {
  claims = some (record { subject = codes " alice"; audiences = codes "vault" ∷ [] });
  ttl_seconds = some (pos 60);
}

abbrev server : DevServer
server = record {
  auth = mint_token (service_with ed25519 5 minter);
  key_store = minter_verification_key minter;
}

built :
    new_dev_server
      (λ s. codes "ab")
      ed25519
      5
      (record { addr = codes ":1"; issuer = codes " dev " })
    ≡ ok server
unfolding new_dev_server serve_with new_dev_auth_service apply_options new_dev_auth_service_handler
    new_key_store_service_handler
built = rw made_minter refl

abbrev answer : MintedToken Time
answer = record {
  jwt = build_jwt ed25519 minter (header_of minter) (
      payload_of minter (record { subject = codes "alice"; audiences = codes "vault" ∷ [] }) 5
        (5 + 60 * second));
  token_type = codes "Bearer";
  expires_at = 5 + 60 * second;
}

minted : handle_mint_token (λ t. t) server.auth background mint_request ≡ ok answer
unfolding handle_mint_token mint_for mint_token_request_to_domain mint_options_from_proto
    claims_from_proto mint_token format_audiences expiry_for_ttl mint_jwt mint_answer
    minted_token_to_proto trimming
minted = refl

abbrev jwks : KeySet
jwks =
    record {
      kty = codes "OKP";
      use_for = codes "sig";
      kid = codes "YWI";
      alg = codes "EdDSA";
      crv = codes "Ed25519";
      x = raw_url_encode (codes "0123456789abcdef0123456789abcdef");
    }
    ∷ []

served_keys : get_key_set server.key_store background ≡ ok jwks
unfolding get_key_set verification_key_to_jwk set_ed25519_key minter_verification_key ◌=s=◌
served_keys = refl

new_dev_server-IsVerifiable_example :
    (minter : JwtMinter) × (new_minter (λ s. codes "ab") ed25519 (codes " dev ") ≡ ok minter)
    × IsVerifiable
        (λ t. t)
        (λ s. codes "ab")
        ed25519
        verify
        (codes " dev ")
        5
        minter
        mint_request
        answer
        jwks
new_dev_server-IsVerifiable_example =
    new_dev_server-IsVerifiable (λ s. codes "ab") ed25519 5
      (record { addr = codes ":1"; issuer = codes " dev " }) (λ t. t) verify background background
      mint_request verifies built minted served_keys
