-- ===== src/Health/Checkers.antt =====
-- The other health checkers: internal/adapters/healthgrpc, which asks a service over gRPC, and
-- internal/adapters/healthstatic, whose status its owner sets. The gRPC client is a parameter.
use canterbury.Base.{ℕ, Option, none, some, Bytes, if◌then◌else◌}
use canterbury.Strings.Trim.{is_empty, trim_space}
use canterbury.Errors.{Result, ok, err, message, wrapping, ◌>>=◌}
use canterbury.Context.{Context}
use canterbury.Health.{Status, status_unknown, status_serving, status_not_serving}

-- The statuses of the package `grpchealth`, and numbers that have no name.
pub data GrpcStatus : Type 0 where
  grpc_unknown grpc_serving grpc_not_serving : GrpcStatus
  grpc_other : ℕ → GrpcStatus

abbrev pub GrpcClient : Type 0
GrpcClient = Context → Bytes → Result GrpcStatus

pub record GrpcChecker : Type 0 where
  pub client : GrpcClient
  pub service : Bytes

unfoldable pub new_grpc_checker : Option GrpcClient → Bytes → Result GrpcChecker
new_grpc_checker none service = err (message "client must not be nil")
new_grpc_checker (some client) service =
    let trimmed = trim_space service in
    if is_empty trimmed
    then err (message "service must not be blank")
    else ok (record { client = client; service = trimmed })

unfoldable pub status_from_grpc : GrpcStatus → Result Status
status_from_grpc grpc_not_serving = ok status_not_serving
status_from_grpc grpc_serving = ok status_serving
status_from_grpc grpc_unknown = ok status_unknown
status_from_grpc (grpc_other n) = err (message "query health: unsupported status")

unfoldable pub check_over_grpc : GrpcChecker → Context → Result Status
check_over_grpc checker ctx =
    wrapping "query health" (checker.client ctx checker.service) >>= λ status.
    status_from_grpc status

-- A method of the static checker holds its lock throughout, so that calls follow one another.
pub record StaticChecker : Type 0 where
  pub status : Status

unfoldable pub new_static_checker : StaticChecker
new_static_checker = record { status = status_serving }

unfoldable pub check_static : StaticChecker → Context → Result Status
check_static checker ctx = elim ctx.cancelled [ some e ↦ err e | none ↦ ok checker.status ]

unfoldable pub set_not_serving : StaticChecker → StaticChecker
set_not_serving checker = record checker { status = status_not_serving }
