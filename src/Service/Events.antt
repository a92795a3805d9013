-- ===== src/Service/Events.antt =====
-- internal/app/vault/audit.go: the envelope of an event.
use canterbury.Base.{Option, none, some, List, [], ◌∷◌, Bytes, if◌then◌else◌}
use canterbury.Base.Int.{pos}
use canterbury.Strings.Trim.{is_empty, trim_space}
use canterbury.Time.{Time, utc, sub}
use canterbury.Context.{Context, Principal, Metadata, metadata_from_context}
use canterbury.Domain.Vault.Access.{Scope}
use canterbury.Domain.Audit.{
  Client, no_interface, service, Policy, no_decision, Outcome, OutcomeStatus, OutcomeCode,
  no_status, no_code, Event,
}
use canterbury.Service.Exec.{Service, Exec, ◌>>=◌, pure, now}

unfoldable pub strings_from_scopes : List Scope → List Bytes
strings_from_scopes [] = []
strings_from_scopes (scope ∷ scopes) =
    let normalized = trim_space scope in
    let rest = strings_from_scopes scopes in if is_empty normalized then rest else normalized ∷ rest

abbrev zero_client : Client
zero_client = record { interface = no_interface; user_agent = []; remote_address_hash = [] }

abbrev zero_policy : Policy
zero_policy = record { mapping_checksum = []; matched_scopes = []; decision = no_decision }

abbrev zero_outcome : Outcome
zero_outcome = record { status = no_status; code = no_code; duration = pos 0 }

-- The metadata of the context, or the zero value.
abbrev envelope : Option Metadata → Metadata
envelope none = record {
  request_id = [];
  trace_id = [];
  client = record zero_client { interface = service };
}
envelope (some metadata) = metadata

unfoldable pub create_event : Context → Principal → Time → Event
unfolding utc metadata_from_context
create_event ctx principal occurred_at =
    let metadata = envelope (metadata_from_context ctx) in
    record {
      id = [];
      occurred_at = utc occurred_at;
      request_id = metadata.request_id;
      trace_id = metadata.trace_id;
      actor = record {
        issuer = principal.issuer;
        subject_hash = principal.subject_hash;
        scopes = principal.scopes;
      };
      client = metadata.client;
      policy = zero_policy;
      outcome = zero_outcome;
      details = none;
    }

unfoldable pub outcome : Service → Time → OutcomeStatus → OutcomeCode → Exec Outcome
outcome s started_at status code = do
  finished_at ← now s
  pure (record { status = status; code = code; duration = sub finished_at started_at })
