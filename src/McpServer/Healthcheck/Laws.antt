-- ===== src/McpServer/Healthcheck/Laws.antt =====
-- When the health check of the MCP server succeeds.
use canterbury.Base.{none, true, [], ◌∷◌, Bytes, ◌≡◌, ◌↔◌, arith, sym, ap, ◌∙◌, refl}
use canterbury.Errors.{Result, ok, ok-inj}
use canterbury.Time.{Duration}
use canterbury.Context.{Context}
use canterbury.Url.{Url, UrlLibrary}
use canterbury.Health.{Status, status_serving, is_serving, new_health_service, check}
use canterbury.Health.Http.{HealthApplication, HealthHandler, HttpChecker, check_over_http}
use canterbury.Health.Http.Laws.{asking, Decodes, check_over_http_iff}
use canterbury.Health.Checkers.{GrpcClient, StaticChecker, check_static}
use canterbury.Health.Cli.{Config, is_positive, new_cli_service, check_once}
use canterbury.Health.Cli.Laws.{check_once_iff}
use canterbury.VaultService.Healthcheck.Laws.{single}
use canterbury.VaultService.Lifecycle.{listening}
use canterbury.McpServer.{health_handler, McpProcess, mcp_started, McpRun}
use canterbury.McpServer.Laws.{Runs, IsSound, started-IsSound, McpRun-IsSound, listens, built}
use canterbury.McpServer.Healthcheck.{mcp_healthcheck}

is_serving-true : (status : Status) → is_serving status ≡ true → status ≡ status_serving
is_serving-true status h = ground arith

live_app : StaticChecker → HealthApplication
live_app checker = check (record { checkers = check_static checker ∷ [] })

-- The checker that asks the live endpoint of a process that runs.
asks_live :
    (unmarshal : Bytes → Result Bytes) {m : McpProcess}
    → IsSound m
    → Runs m
    → (served ctx : Context) → Decodes unmarshal
    → served.cancelled ≡ none
    → ctx.cancelled ≡ none
    → (check_over_http (asking (live_app m.checker) unmarshal served) ctx ≡ ok status_serving)
      ↔ (m.phase ≡ listening)
unfolding live_app
asks_live unmarshal {m} sound runs served ctx decodes ready live =
    let asked =
      check_over_http_iff (live_app m.checker) unmarshal served ctx status_serving decodes live in
    let one = single (check_static m.checker) served in
    let static = listens sound runs served in
    (
      λ h.
          let (result, found, same) = asked.0 h in
          (static.0 (one.0 (result, found, ap is_serving same)).1).1,
      λ l.
          let (result, found, s) = one.1 (ready, static.1 (ready, l)) in
          asked.1 (result, found, is_serving-true result.status s),
    )

module _ (lib : UrlLibrary) (with_timeout : Context → Duration → Context) (ctx : Context) where
  checks :
      (c : HttpChecker) (cfg : Config) (url : Url)
      → lib.parse cfg.url ≡ ok url
      → mcp_healthcheck lib (λ u timeout. c) with_timeout ctx cfg
        ≡ check_once with_timeout
            (check (record { checkers = check_over_http c ∷ [] }))
            ctx
            cfg.timeout
  unfolding mcp_healthcheck new_health_service new_cli_service
  checks c cfg url parsed = rw parsed refl

  -- The health check of the MCP server, whose request reaches the endpoint for live checks of a
  -- process that has not ended, in a context that is not cancelled, succeeds exactly when its
  -- timeout is positive, the check is in time, and the process listens; where the address of the
  -- configuration is parsed, and decoding undoes the encoding of the three statuses.
  pub mcp_healthcheck_iff :
      (unmarshal : Bytes → Result Bytes) (client : GrpcClient) (cfg : Config) (url : Url)
      → Decodes unmarshal
      → lib.parse cfg.url ≡ ok url
      → {m : McpProcess} (run : McpRun mcp_started m) → Runs m
      → (handler : HealthHandler) → health_handler client m.checker ≡ ok handler
      → (served : Context) → served.cancelled ≡ none
      → (mcp_healthcheck lib
            (λ u timeout. asking handler.live unmarshal served)
            with_timeout
            ctx
            cfg
          ≡ ok tt)
        ↔ ((is_positive cfg.timeout ≡ true)
            × ((with_timeout ctx cfg.timeout).cancelled ≡ none)
            × (m.phase ≡ listening))
  unfolding live_app
  mcp_healthcheck_iff unmarshal client cfg url decodes parsed {m} run runs handler made served
        ready =
      let sound = McpRun-IsSound run started-IsSound in
      let c = asking (live_app m.checker) unmarshal served in
      let same : handler.live ≡ live_app m.checker =
        ap (λ (h : HealthHandler). h.live) (ok-inj (sym made ∙ built client m.checker)) in
      let app = check (record { checkers = check_over_http c ∷ [] }) in
      let once = check_once_iff with_timeout app ctx cfg.timeout in
      let one = single (check_over_http c) (with_timeout ctx cfg.timeout) in
      let seen =
        asks_live unmarshal sound runs served (with_timeout ctx cfg.timeout) decodes ready in
      rw (same, checks c cfg url parsed)
        (
          λ h.
              let (positive, serves) = once.0 h in
              let (live, s) = one.0 serves in (positive, live, (seen live).0 s),
          λ (positive, live, l). once.1 (positive, one.1 (live, (seen live).1 l)),
        )
