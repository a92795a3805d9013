-- ===== src/Lib.antt =====
-- The Go services of canterbury: access-controlled, audited reading and searching of the notes of
-- a vault.
--
-- A request comes from an agent to the MCP gateway (internal/interfaces/mcphttp), which demands a
-- bearer token and calls the vault service with it. There it passes two interceptors
-- (internal/interfaces/vaultrpc): the first gives it an identifier and a trace, the second
-- authenticates it. The authenticator (internal/app/auth) has a verifier
-- (internal/adapters/authjwt) check the token, and looks up the caller's scopes in a mapping that
-- is loaded at the start from a file (internal/adapters/authfs). The handlers (vaultrpc) turn
-- messages into queries and results into messages, and give errors a code. The vault service
-- (internal/app/vault) asks a repository for notes, lets through those that declare one of the
-- caller's scopes, and writes an audit event before it answers. The repository
-- (internal/adapters/vaultfs) reads notes from the files below a directory, and searches them.
-- The audit log (internal/app/auditlog) completes events, and a recorder
-- (internal/adapters/auditfs) puts each of them as a line at the end of the file of its day. The
-- types that the parts share, with the checks that build them, are those of the domain
-- (internal/domain). The programs (cmd/vault-service, cmd/mcp-server, cmd/dev-auth) put the parts
-- together, answer health checks (internal/app/health and its adapters), and take commands
-- (internal/cliapp). A development service mints tokens and publishes the key with which they
-- verify (internal/app/devauth and devauthjwt, devrpc, keyshttp).
--
-- Files:
--   Base, Strings          native numbers, lists and the functions of Go's package `strings` and
--                          of `path.Clean` that the program uses, on strings as lists of bytes
--   Errors                 sentinel errors, wrapping, `errors.Is`, `errors.As`; results
--   Time                   `time.Time` and `time.Duration` in nanoseconds; Civil, dates and RFC 3339
--   Encoding               what `encoding/json` and `encoding/base64` print
--   Domain/Vault           internal/domain/vault: scopes, notes, note paths, queries
--   Domain/Audit           internal/domain/audit: events and their identifiers
--   Context                internal/app/authctx and internal/app/auditctx
--   Auth                   internal/app/auth: scope mapping and authentication
--   AuthFs, AuthJwt        internal/adapters/authfs, the mapping file, and internal/adapters/authjwt,
--                          the verification of tokens
--   Service                internal/app/vault: `ReadNote` and `SearchNotes` with their events
--   VaultFs                internal/adapters/vaultfs: Filters (match*.go), Pagination, Sort,
--                          Frontmatter, Paths (path.go), Snippet, Read (read.go, repository.go),
--                          Search; Released composes it with the service
--   Cli                    internal/cliapp: commands and exit statuses; Programs, the commands of
--                          cmd/vault-service and cmd/mcp-server
--   Url                    the addresses that cmd/vault-service and cmd/mcp-server accept
--   Health                 internal/app/health: the aggregation of health checks; Http, the handler
--                          and the checker over HTTP (internal/interfaces/healthhttp and
--                          internal/adapters/healthhttp); Checkers (healthgrpc, healthstatic); Cli
--                          (internal/interfaces/healthcli)
--   DevAuth                internal/app/devauth: tokens for development; Jwt
--                          (internal/adapters/devauthjwt), Rpc (internal/interfaces/devrpc), Keys
--                          (internal/interfaces/keyshttp)
--   AuditLog               internal/app/auditlog and internal/app/idgen: event identifiers and the
--                          completion of events
--   AuditFs                internal/adapters/auditfs: Data (event_data.go), Writer (recorder.go),
--                          Files (record.go, file.go, jsonl.go), with the directory as a log in
--                          Files/Log
--   Bearer                 the authorization of a request, in internal/interfaces/mcphttp and
--                          internal/interfaces/vaultrpc, and its trace identifier (Trace)
--   VaultRpc               internal/interfaces/vaultrpc: the handlers of the vault service with their
--                          messages and errors, the interceptors before them (AuditContext,
--                          AuthContext) and their order (Chain); Released composes the handlers
--                          with the service
--   McpHttp                internal/interfaces/mcphttp: what the gateway demands and passes on
--   VaultService           cmd/vault-service: its configuration and parts (VaultService, Built), a
--                          search and a read from the request to the answer (Released, Reads), the
--                          process from its start to its end (Lifecycle), and its health check (Healthcheck)
--   McpServer              cmd/mcp-server: its configuration, its health endpoints and its process
--                          (McpServer), and its health check (Healthcheck)
--   DevServer              cmd/dev-auth: its commands, its configuration and its services
--   Tests                  the theorems at concrete inputs
--
-- A method that may fail returns a `Result`; a message keeps its text without the values that are
-- formatted into it. A method of the service is an action over a `World`: how often the clock was
-- read, and the events in the log. A nil pointer or interface is `none`. A map of Go is an
-- association list whose first entry for a key counts; no code that is modelled depends on the
-- order in which a map is visited.
--
-- Parameters, for what is not in the repository: `lower_unicode` is the case table of Unicode, for
-- texts that are not ASCII; `sha256` is the hash. The token verifier, the mapping source, the
-- repository, the audit log and the clock are interfaces of the program itself, and fields of the
-- records that use them; VaultService fills them with the parts that the program has. `Network` is
-- the packages `net` and `netip` with the message code of a key, `Jwt` the JWT library with the
-- fetching of a key set, `Toml` the decoder of the mapping file, `Ed25519` the signatures,
-- `UrlLibrary` the package `net/url`. `Disk` and `RootFiles` are the calls of the file system by
-- the recorder of events, which may fail, and a write may write a part; `Store` is the content of
-- the files. `GrpcClient` and the fields of `HttpChecker` are the clients of health checks,
-- `StaticHealth` the checker of `grpchealth`, of which `KeepsStatus` says that it keeps the status
-- set for a name, and `Environment` is all that cmd/vault-service gets from outside. `Files` is
-- the file system, `Yaml` the decoder of the frontmatter, and a directory is a tree of entries in
-- the order in which it is walked. A context is as it is at the time of a call, cancelled or not.
-- The random bytes of an identifier are what the system gives. Whether the recorder takes an event
-- is `answers` in VaultService, since the audit log has no state of its own; what it does to the
-- files is in AuditFs. `Protocol` is the library of the messages: what it makes of a map and of an
-- instant.
--
-- Most loops go over a list. The loops over the characters of a text, in `rune_count` and in
-- `extend` of VaultFs/Snippet, and the one over the digits of a number, in `digits` of
-- Strings/Decimal, and over the characters of a text that is printed as JSON, run on fuel: the
-- length of the text and the number are enough, since each round passes a character or drops a
-- digit. A panic of the program is `none` in VaultFs/Snippet, and becomes an error in
-- VaultFs/Search.
--
-- Not modelled: the HTTP servers and the reflection service; the generated code
-- under gen; the TypeScript and JavaScript of sync and scripts, and the vendored third_party. Of
-- a log line nothing is kept.
pub mod Base
pub mod Strings
pub mod Errors
pub mod Time
pub mod Encoding
pub mod Domain
pub mod Context
pub mod Auth
pub mod AuthFs
pub mod AuthJwt
pub mod Service
pub mod VaultFs
pub mod Cli
pub mod Url
pub mod Health
pub mod DevAuth
pub mod AuditLog
pub mod AuditFs
pub mod Bearer
pub mod VaultRpc
pub mod McpHttp
pub mod McpServer
pub mod DevServer
pub mod VaultService
pub mod Tests
