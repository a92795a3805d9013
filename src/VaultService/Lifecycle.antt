-- ===== src/VaultService/Lifecycle.antt =====
-- `serve` of cmd/vault-service/main.go: from a server that listens to the end of the process, with
-- the health that it announces. The checker of the package `grpchealth` is a parameter. A process
-- that has ended answers nothing.
pub mod Laws
pub mod Ends
use canterbury.Base.{Option, none, some, List, [], ◌∷◌, Bytes, codes, if◌then◌else◌}
use canterbury.Errors.{Error, Result, ok, err, wrap, is, server_closed}
use canterbury.Base.{◌*◌}
use canterbury.Base.Int.{pos}
use canterbury.Time.{Duration, second}
use canterbury.Context.{Context}
use canterbury.Health.Checkers.{GrpcStatus, grpc_serving, grpc_not_serving, GrpcClient}

-- The static checker, which keeps a status for each name of a service.
pub record StaticHealth : Type 1 where
  pub Statuses : Type 0
  pub new_statuses : Statuses
  pub set_status : Statuses → Bytes → GrpcStatus → Statuses
  pub check : Statuses → Context → Bytes → Result GrpcStatus

-- `vaultv1connect.VaultServiceName`
abbrev pub vault_service_name : Bytes
vault_service_name = codes "canterbury.vault.v1.VaultService"

abbrev pub shutdown_grace_period : Duration
shutdown_grace_period = pos (10 * second)

pub data Phase : Type 0 where
  listening draining : Phase
  ended : Result (Unit {0}) → Phase

-- What happens to a process: a signal, an answer of `ListenAndServe`, and one of `Shutdown`, which
-- hangs on the timeout of its context. `none` is the nil error.
pub data Event : Type 0 where
  signalled : Event
  listened : Error → Event
  shut_down : (Duration → Option Error) → Event

unfoldable pub listen_result : Error → Result (Unit {0})
listen_result e = if is e server_closed then ok tt else err (wrap "serve vault HTTP" e)

unfoldable pub shutdown_result : Option Error → Result (Unit {0})
shutdown_result none = ok tt
shutdown_result (some e) = err (wrap "shut down vault service" e)

module _ (lib : StaticHealth) where
  pub record Process : Type 0 where
    pub phase : Phase
    pub health : lib.Statuses

  unfoldable pub set_serving : Process → Process
  set_serving process = record process {
    health = lib.set_status process.health vault_service_name grpc_serving;
  }

  unfoldable pub set_not_serving : Process → Process
  set_not_serving process = record process {
    health = lib.set_status process.health vault_service_name grpc_not_serving;
  }

  -- The status that `newVaultServer` gives a new checker, before the call of `setServing`.
  unfoldable pub started : Process
  started = set_serving (record {
    phase = listening;
    health = lib.set_status lib.new_statuses vault_service_name grpc_not_serving;
  })

  -- `defer server.setNotServing()`
  unfoldable pub end_with : Process → Result (Unit {0}) → Process
  end_with process result = set_not_serving (record process { phase = ended result })

  -- The branches of `select`, and the shutdown that follows the first. `Shutdown` is called after a
  -- signal only, and then nobody waits for another signal or for `ListenAndServe`.
  step_at : Phase → Process → Event → Process
  step_at listening process signalled = set_not_serving (record process { phase = draining })
  step_at listening process (listened e) = end_with process (listen_result e)
  step_at listening process (shut_down answer) = process
  step_at draining process (shut_down answer) =
      end_with process (shutdown_result (answer shutdown_grace_period))
  step_at draining process signalled = process
  step_at draining process (listened e) = process
  step_at (ended result) process event = process

  unfoldable pub step : Process → Event → Process
  unfolding step_at
  step process event = step_at process.phase process event

  unfoldable pub run : Process → List Event → Process
  run process [] = process
  run process (event ∷ events) = run (step process event) events

  -- A client of the health service of a process. The error is that of a connection that fails.
  unfoldable pub health_client : Error → Process → GrpcClient
  health_client refused process ctx service = elim process.phase [
    | listening ↦ lib.check process.health ctx service
    | draining ↦ lib.check process.health ctx service
    | ended result ↦ err refused
  ]
