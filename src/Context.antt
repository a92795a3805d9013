-- ===== src/Context.antt =====
-- A request's context, as the program uses it: whether it is cancelled or past its deadline, the
-- principal that internal/app/authctx stores on it, and the metadata that internal/app/auditctx
-- stores on it. The error is that of `ctx.Err()` at the time of a call.
use canterbury.Base.{Option, none, some, List, Bytes}
use canterbury.Errors.{Error}
use canterbury.Domain.Vault.Access.{Scope}
use canterbury.Domain.Audit.{Client}
use canterbury.Domain.Audit.Identifier.{RequestId, TraceId}

-- internal/app/auth/principal.go
pub record Principal : Type 0 where
  pub issuer : Bytes
  pub subject : Bytes
  pub subject_hash : Bytes
  pub scopes : List Scope
  pub mapping_checksum : Bytes

-- internal/app/auditctx/context.go
pub record Metadata : Type 0 where
  pub request_id : RequestId
  pub trace_id : TraceId
  pub client : Client

pub record Context : Type 0 where
  pub cancelled : Option Error
  pub principal : Option Principal
  pub metadata : Option Metadata

unfoldable pub with_principal : Context → Principal → Context
with_principal ctx principal = record ctx { principal = some principal }

unfoldable pub with_metadata : Context → Metadata → Context
with_metadata ctx metadata = record ctx { metadata = some metadata }

unfoldable pub principal_from_context : Context → Option Principal
principal_from_context ctx = ctx.principal

unfoldable pub metadata_from_context : Context → Option Metadata
metadata_from_context ctx = ctx.metadata

abbrev pub background : Context
background = record { cancelled = none; principal = none; metadata = none }
