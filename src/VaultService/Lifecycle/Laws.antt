-- ===== src/VaultService/Lifecycle/Laws.antt =====
-- How a process of the vault service runs and ends, and what its health tells.
use canterbury.Base.{List, [], ◌∷◌, Bytes, arith, ◌≡◌, ◌↔◌}
use canterbury.Errors.{Error, ok}
use canterbury.Context.{Context}
use canterbury.Health.{status_serving}
use canterbury.Health.Checkers.{
  GrpcStatus, grpc_serving, grpc_not_serving, status_from_grpc, check_over_grpc,
}
use canterbury.VaultService.Lifecycle.{
  StaticHealth, vault_service_name, Phase, listening, draining, ended, Event, signalled, listened,
  shut_down, Process, set_serving, set_not_serving, started, end_with, step, run, health_client,
}

-- A status that was set is that of the service of this name.
abbrev pub KeepsStatus : StaticHealth → Type 0
KeepsStatus lib =
    (statuses : lib.Statuses) (name : Bytes) (status : GrpcStatus) (ctx : Context)
    → lib.check (lib.set_status statuses name status) ctx name ≡ ok status

-- The health of a process by its phase.
abbrev pub announced : Phase → GrpcStatus
announced listening = grpc_serving
announced draining = grpc_not_serving
announced (ended result) = grpc_not_serving

module _ (lib : StaticHealth) (keeps : KeepsStatus lib) where
  abbrev pub Announces : Process lib → Type 0
  Announces p = (ctx : Context) → lib.check p.health ctx vault_service_name ≡ ok (announced p.phase)

  step_at-Announces :
      (phase : Phase) (h : lib.Statuses) (event : Event)
      → let p : Process lib = record { phase = phase; health = h } in
        Announces p → Announces (step lib p event)
  unfolding set_not_serving end_with step
  step_at-Announces listening h signalled a ctx = keeps _ _ _ ctx
  step_at-Announces listening h (listened e) a ctx = keeps _ _ _ ctx
  step_at-Announces listening h (shut_down answer) a ctx = a ctx
  step_at-Announces draining h signalled a ctx = a ctx
  step_at-Announces draining h (listened e) a ctx = a ctx
  step_at-Announces draining h (shut_down answer) a ctx = keeps _ _ _ ctx
  step_at-Announces (ended result) h event a ctx = a ctx

  pub run-Announces :
      (p : Process lib) (events : List Event) → Announces p → Announces (run lib p events)
  unfolding run
  run-Announces p [] a = a
  run-Announces p (event ∷ events) a =
      run-Announces (step lib p event) events (step_at-Announces p.phase p.health event a)

  pub started-Announces : Announces (started lib)
  unfolding started set_serving
  started-Announces ctx = keeps _ _ _ ctx

  seen :
      (refused : Error) (p : Process lib) (ctx : Context)
      → Announces p
      → (check_over_grpc
            (record { client = health_client lib refused p; service = vault_service_name })
            ctx
          ≡ ok status_serving)
        ↔ (p.phase ≡ listening)
  unfolding check_over_grpc status_from_grpc health_client
  seen refused p ctx a = let told = a ctx in ground (arith, told)

  -- The health check over gRPC, under the name of the vault service, of a process that has run from
  -- its start finds it serving exactly while it listens: neither once it drains nor after its end,
  -- however it ends. The checker keeps the status that was set for a name.
  pub check_over_grpc_iff :
      (refused : Error) (events : List Event) (ctx : Context)
      → let p = run lib (started lib) events in
        (check_over_grpc
            (record { client = health_client lib refused p; service = vault_service_name })
            ctx
          ≡ ok status_serving)
        ↔ (p.phase ≡ listening)
  check_over_grpc_iff refused events ctx =
      seen refused (run lib (started lib) events) ctx
        (run-Announces (started lib) events started-Announces)
