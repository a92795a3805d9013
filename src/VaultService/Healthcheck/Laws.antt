-- ===== src/VaultService/Healthcheck/Laws.antt =====
-- When the health check of the vault service succeeds.
use canterbury.Base.{List, none, some, [], ◌∷◌, ◌≡◌, ◌↔◌, refl, arith, true}
use canterbury.Strings.Trim.{trimming}
use canterbury.Errors.{Error, ok}
use canterbury.Time.{Duration}
use canterbury.Context.{Context}
use canterbury.Health.{
  Checker, HealthResult, status_serving, is_serving, resolve, new_health_service, check, check_all,
}
use canterbury.Health.Checkers.{GrpcClient, new_grpc_checker, check_over_grpc}
use canterbury.Health.Cli.{Config, is_positive, new_cli_service}
use canterbury.Health.Cli.Laws.{check_once_iff}
use canterbury.VaultService.Lifecycle.{
  StaticHealth, vault_service_name, listening, Event, started, run, health_client,
}
use canterbury.VaultService.Lifecycle.Laws.{KeepsStatus, check_over_grpc_iff}
use canterbury.VaultService.Healthcheck.{healthcheck}

-- One checker decides.
pub single :
    (c : Checker) (ctx : Context)
    → ((result : HealthResult) × (check (record { checkers = c ∷ [] }) ctx ≡ ok result)
        × (is_serving result.status ≡ true))
      ↔ ((ctx.cancelled ≡ none) × (c ctx ≡ ok status_serving))
unfolding check check_all resolve
single c ctx = (
  λ (result, h, s). ground arith,
  λ (live, s). (record { status = status_serving; errors = [] }, ground arith, refl),
)

pub new_checker :
    (client : GrpcClient)
    → new_grpc_checker (some client) vault_service_name
      ≡ ok (record { client = client; service = vault_service_name })
unfolding new_grpc_checker trimming
new_checker client = refl

-- The health check of the vault service that asks a process of it succeeds exactly when its timeout
-- is positive, the check is in time, and the process listens, whatever has happened to it: not while
-- it drains, nor after its end. The checker keeps the status that was set for a name.
pub healthcheck_iff :
    (with_timeout : Context → Duration → Context) (ctx : Context) (cfg : Config)
    → (lib : StaticHealth) (keeps : KeepsStatus lib) (refused : Error) (events : List Event)
    → let p = run lib (started lib) events in
      (healthcheck (λ url timeout. health_client lib refused p) with_timeout ctx cfg ≡ ok tt) ↔ (
        (is_positive cfg.timeout ≡ true)
        × ((with_timeout ctx cfg.timeout).cancelled ≡ none)
        × (p.phase ≡ listening))
unfolding healthcheck new_health_service new_cli_service
healthcheck_iff with_timeout ctx cfg lib keeps refused events =
    let p = run lib (started lib) events in
    let c : Checker =
      check_over_grpc
        (record { client = health_client lib refused p; service = vault_service_name }) in
    let once = check_once_iff with_timeout (check (record { checkers = c ∷ [] })) ctx cfg.timeout in
    let one = single c (with_timeout ctx cfg.timeout) in
    let seen = check_over_grpc_iff lib keeps refused events (with_timeout ctx cfg.timeout) in
    rw (new_checker (health_client lib refused p)) (
      λ h.
          let (positive, served) = once.0 h in
          let (live, serving) = one.0 served in (positive, live, seen.0 serving),
      λ (positive, live, listens). once.1 (positive, one.1 (live, seen.1 listens)),
    )
