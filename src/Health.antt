-- ===== src/Health.antt =====
-- internal/app/health/service.go and internal/domain/health. A status is one of the three constants.
pub mod Laws
pub mod Http
pub mod Checkers
pub mod Cli
use canterbury.Base.{
  Bool, true, false, ◌&&◌, ◌||◌, Option, none, some, List, [], ◌∷◌, ◌++◌, if◌then◌else◌,
}
use canterbury.Errors.{Error, Result, ok, err, message, unless, ◌>>=◌}
use canterbury.Context.{Context}

pub data Status : Type 0 where
  status_unknown status_serving status_not_serving : Status

abbrev pub is_serving : Status → Bool
is_serving status_serving = true
is_serving status_unknown = false
is_serving status_not_serving = false

abbrev pub is_not_serving : Status → Bool
is_not_serving status_not_serving = true
is_not_serving status_unknown = false
is_not_serving status_serving = false

abbrev pub Checker : Type 0
Checker = Context → Result Status

-- `Err` is what `errors.Join` makes of the errors; none is nil.
pub record HealthResult : Type 0 where
  pub status : Status
  pub errors : List Error

pub record HealthService : Type 0 where
  pub checkers : List Checker

present : List (Option Checker) → Result (List Checker)
present [] = ok []
present (none ∷ cs) = err (message "checker must not be nil")
present (some c ∷ cs) = let rest = present cs in rest >>= λ more. ok (c ∷ more)

-- `none` is a nil checker.
unfoldable pub new_health_service : List (Option Checker) → Result HealthService
unfolding present
new_health_service [] = err (message "there must be at least 1 checker")
new_health_service (c ∷ cs) = present (c ∷ cs) >>= λ checkers. ok (record { checkers = checkers })

unfoldable pub resolve : Status → Status → Status
resolve status next =
    if is_not_serving status || is_not_serving next
    then status_not_serving
    else if is_serving status && is_serving next
    then status_serving
    else status_unknown

-- The loop over the checkers.
unfoldable pub check_all : Context → Status → List Error → List Checker → Result HealthResult
check_all ctx resolved errors [] = ok (record { status = resolved; errors = errors })
check_all ctx resolved errors (c ∷ cs) = unless ctx.cancelled (elim (c ctx) [
  | err e ↦ check_all ctx (resolve resolved status_unknown) (errors ++ e ∷ []) cs
  | ok status ↦
      let next = resolve resolved status in
      if is_not_serving next
      then ok (record { status = next; errors = errors })
      else check_all ctx next errors cs
])

unfoldable pub check : HealthService → Context → Result HealthResult
check service ctx = check_all ctx status_serving [] service.checkers
