-- ===== src/McpServer/Laws.antt =====
-- What the MCP server tells of its health while it runs.
use canterbury.Base.{
  List, ℕ, true, false, none, [], ◌∷◌, ◌≡◌, ◌≢◌, ◌↔◌, refl, arith, if◌then◌else◌, ◌=s=◌, inl, inr,
  ◌⊎◌, sym, ◌∙◌,
}
use canterbury.Errors.{Error, Result, ok, wrap, Result-cases}
use canterbury.Context.{Context}
use canterbury.Health.{
  Status, status_serving, status_not_serving, is_serving, Checker, HealthResult, new_health_service,
  check, check_all, resolve,
}
use canterbury.Health.Http.{
  HealthApplication, HealthHandler, new_health_handler, serve_health, reply_for, get_health,
  method_get, classify_http_error,
}
use canterbury.Health.Checkers.{
  GrpcClient, GrpcChecker, check_over_grpc, StaticChecker, new_static_checker, check_static,
  set_not_serving,
}
use canterbury.VaultService.Healthcheck.Laws.{new_checker, single}
use canterbury.VaultService.Lifecycle.{
  StaticHealth, vault_service_name, Phase, Event, run, started, listening, draining, ended,
  health_client,
}
use canterbury.VaultService.Lifecycle.Laws.{KeepsStatus, check_over_grpc_iff}
use canterbury.McpServer.{
  health_handler, McpProcess, mcp_started, mcp_end_with, drain, McpStep, interrupted, failed,
  drained, McpRun, stay, step,
}

-- The process runs.
abbrev pub Runs : McpProcess → Type 0
Runs m = (result : Result (Unit {0})) → m.phase ≢ ended result

-- The health of the process by its phase, and that its requests run on until it ends.
pub record IsSound (m : McpProcess) : Type 0 where
  serves : m.phase ≡ listening → m.checker.status ≡ status_serving
  drains : m.phase ≡ draining → m.checker.status ≡ status_not_serving
  kept : Runs m → m.requests_cancelled ≡ false

pub started-IsSound : IsSound mcp_started
unfolding mcp_started new_static_checker
started-IsSound = record { serves = λ e. refl; drains = λ e. absurd (cc); kept = λ r. refl }

ended-IsSound : (m : McpProcess) (result : Result (Unit {0})) → IsSound (mcp_end_with m result)
unfolding mcp_end_with
ended-IsSound m result = record {
  serves = λ e. absurd (cc);
  drains = λ e. absurd (cc);
  kept = λ r. absurd (r result refl);
}

listening-Runs : (m : McpProcess) → m.phase ≡ listening → Runs m
listening-Runs m e result e' = cc

drain-IsSound : (m : McpProcess) → m.phase ≡ listening → IsSound m → IsSound (drain m)
unfolding drain set_not_serving
drain-IsSound m e sound = record {
  serves = λ e. absurd (cc);
  drains = λ e. refl;
  kept = λ r. sound.kept (listening-Runs m e);
}

McpStep-IsSound : {m n : McpProcess} → McpStep m n → IsSound m → IsSound n
McpStep-IsSound (interrupted e) sound = drain-IsSound _ e sound
McpStep-IsSound (failed x e) sound = ended-IsSound _ _
McpStep-IsSound (drained join stopped closed e) sound = ended-IsSound _ _

pub McpRun-IsSound : {m n : McpProcess} → McpRun m n → IsSound m → IsSound n
McpRun-IsSound stay h = h
McpRun-IsSound (step one more) h = McpRun-IsSound more (McpStep-IsSound one h)

failure_code : (e : Error) → (classify_http_error e).0 ≢ 200
unfolding classify_http_error
failure_code e = ground arith

status_code : Status → ℕ
status_code status = if is_serving status then 200 else 503

serving_code : (status : Status) → status_code status ≡ 200 → is_serving status ≡ true
unfolding status_code
serving_code status h = ground arith

-- An endpoint answers 200 when its application finds the service serving.
code_iff :
    (app : HealthApplication) (ctx : Context)
    → ((serve_health app method_get ctx).code ≡ 200)
      ↔ ((result : HealthResult) × (app ctx ≡ ok result) × (is_serving result.status ≡ true))
unfolding serve_health reply_for get_health status_code ◌=s=◌
code_iff app ctx = (
  (λ h. elim (Result-cases (app ctx)) [
    | inl (result, found) ↦ (result, found, serving_code result.status (rw found at h))
    | inr (e, failure) ↦ absurd (failure_code (wrap "check service health" e) (rw failure at h))
  ]),
  λ (result, found, serves). rw (found, serves) refl,
)

static_iff :
    (checker : StaticChecker) (ctx : Context)
    → (check_static checker ctx ≡ ok status_serving)
      ↔ ((ctx.cancelled ≡ none) × (checker.status ≡ status_serving))
unfolding check_static
static_iff checker ctx = ground arith

-- Two checkers that both must find the service serving.
both :
    (a b : Checker) (ctx : Context)
    → ((result : HealthResult) × (check (record { checkers = a ∷ b ∷ [] }) ctx ≡ ok result)
        × (is_serving result.status ≡ true))
      ↔ ((ctx.cancelled ≡ none) × (a ctx ≡ ok status_serving) × (b ctx ≡ ok status_serving))
unfolding check check_all resolve
both a b ctx = (
  λ (result, h, s). ground arith,
  λ (live, s, t). (record { status = status_serving; errors = [] }, ground arith, refl),
)

phases :
    (phase : Phase)
    → (phase ≡ listening)
      ⊎ ((phase ≡ draining) ⊎ ((result : Result (Unit {0})) × (phase ≡ ended result)))
phases listening = inl refl
phases draining = inr (inl refl)
phases (ended result) = inr (inr (result, refl))

-- While the process runs, its own checker finds it serving while it listens.
pub listens :
    {m : McpProcess}
    → IsSound m
    → Runs m
    → (ctx : Context)
    → (check_static m.checker ctx ≡ ok status_serving)
      ↔ ((ctx.cancelled ≡ none) × (m.phase ≡ listening))
listens {m} sound runs ctx =
    let seen = static_iff m.checker ctx in
    (
      λ h. (
        (seen.0 h).0,
        elim (phases m.phase) [
          | inl e ↦ e
          | inr (inl e) ↦ absurd (ground (arith, sym (sound.drains e) ∙ (seen.0 h).1))
          | inr (inr (result, e)) ↦ absurd (runs result e)
        ],
      ),
      λ (c, l). seen.1 (c, sound.serves l),
    )

pub built :
    (client : GrpcClient) (checker : StaticChecker)
    → health_handler client checker
      ≡ ok (record {
        live = check (record { checkers = check_static checker ∷ [] });
        ready = check (record {
          checkers =
              check_static checker
              ∷ check_over_grpc (record { client = client; service = vault_service_name })
              ∷ [];
        });
      })
unfolding health_handler new_health_service new_health_handler
built client checker = rw (new_checker client) refl

-- While a process of the MCP server has not ended, no request that it serves is cancelled by it. Its
-- endpoint for live checks answers 200 to a GET exactly when the context of the request is not
-- cancelled and the process listens; the one for ready checks asks also that the process of the
-- vault service listens, whatever has happened to it: it must neither drain nor have ended. The
-- checker of the vault service keeps the status that was set for a name.
pub ready_iff :
    (lib : StaticHealth) (keeps : KeepsStatus lib) (refused : Error)
    → {m : McpProcess} (mcp_run : McpRun mcp_started m) (events : List Event) (ctx : Context)
    → Runs m
    → let p = run lib (started lib) events in
      (m.requests_cancelled ≡ false)
      × ((handler : HealthHandler) × (health_handler (health_client lib refused p) m.checker
            ≡ ok handler)
          × (((serve_health handler.live method_get ctx).code ≡ 200)
              ↔ ((ctx.cancelled ≡ none) × (m.phase ≡ listening)))
          × (((serve_health handler.ready method_get ctx).code ≡ 200)
              ↔ ((ctx.cancelled ≡ none) × (m.phase ≡ listening) × (p.phase ≡ listening))))
ready_iff lib keeps refused {m} mcp_run events ctx runs =
    let p = run lib (started lib) events in
    let grpc : GrpcChecker = record {
      client = health_client lib refused p;
      service = vault_service_name;
    } in
    let sound = McpRun-IsSound mcp_run started-IsSound in
    let static = listens sound runs ctx in
    let seen = check_over_grpc_iff lib keeps refused events ctx in
    let one = single (check_static m.checker) ctx in
    let two = both (check_static m.checker) (check_over_grpc grpc) ctx in
    let live = code_iff (check (record { checkers = check_static m.checker ∷ [] })) ctx in
    let ready =
      code_iff (check (record { checkers = check_static m.checker ∷ check_over_grpc grpc ∷ [] }))
        ctx in
    (
      sound.kept runs,
      (
        record {
          live = check (record { checkers = check_static m.checker ∷ [] });
          ready = check (record { checkers = check_static m.checker ∷ check_over_grpc grpc ∷ [] });
        },
        built _ _,
        (λ h. static.0 (one.0 (live.0 h)).1, λ (c, l). live.1 (one.1 (c, static.1 (c, l)))),
        (
          λ h. let (c, a, b) = two.0 (ready.0 h) in (c, (static.0 a).1, seen.0 b),
          λ (c, l, v). ready.1 (two.1 (c, static.1 (c, l), seen.1 v)),
        ),
      ),
    )
