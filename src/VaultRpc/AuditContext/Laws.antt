-- ===== src/VaultRpc/AuditContext/Laws.antt =====
-- What the interceptor of internal/interfaces/vaultrpc/audit_context.go puts on requests and on
-- their answers.
use canterbury.Base.{
  true, false, Option, none, some, String, [], ◌∷◌, ◌++◌, Bytes, codes, ◌≡◌, refl, ◌⊎◌, inl, inr,
  ◌≤◌, Bool-cases, Option-cases, length, ◌=s=◌, =s=_refl,
}
use canterbury.Errors.{
  Error, Result, ok, err, sentinel, message, wrap, failure, connect, Code, Result-cases, wrapping,
  wrapping-eq-ok, >>=-eq-ok,
}
use canterbury.Context.{Context, with_metadata}
use canterbury.Domain.Audit.{Client}
use canterbury.Domain.Audit.Identifier.{RequestId, new_request_id, max_id_length}
use canterbury.Domain.Audit.Identifier.Laws.{new_request_id-bounds}
use canterbury.Service.Exec.{World, Exec}
use canterbury.AuditLog.Ulid.{new_ulid}
use canterbury.Bearer.{Header, first_value, set_header}
use canterbury.VaultRpc.AuditContext.{
  Network, AuditContextInterceptor, Response, header_request_id, meta_request_id, Meta,
  set_request_id, request_id_from_header, generate_request_id, request_id, client,
  handle_audit_interceptor_error, set_meta, with_request_id_from, with_request_id, tag_answer,
  metadata_of, pass_on, wrap_audit,
}

-- The value of a key in the metadata of an error.
abbrev pub meta_value : String → Meta → Option Bytes
meta_value key [] = none
meta_value key ((k, v) ∷ meta) = elim (codes k =s= codes key) [
  | true ↦ some v
  | false ↦ meta_value key meta
]

set_meta_lem :
    (key : String) (value : Bytes) (meta : Meta)
    → meta_value key (set_meta key value meta) ≡ some value
unfolding set_meta
set_meta_lem key value [] = rw (=s=_refl (codes key), meta_value) refl
set_meta_lem key value ((k, v) ∷ meta) = elim (Bool-cases (codes k =s= codes key)) [
  | inl same ↦ rw same (rw (=s=_refl (codes key), meta_value) refl)
  | inr other ↦ rw other (rw (other, meta_value) (set_meta_lem key value meta))
]

-- A connect error with the identifier in its metadata.
abbrev pub HasRequestId : RequestId → Error → Type 0
HasRequestId id e =
    (code : Code) × (cause : Error) × (meta : Meta) × (e ≡ connect code cause meta)
    × (meta_value meta_request_id meta ≡ some id)

with_request_id_from-HasRequestId :
    (whole : Error) (id : RequestId) (e : Error) → HasRequestId id (with_request_id_from whole id e)
unfolding with_request_id_from ◌=s=◌
with_request_id_from-HasRequestId whole id (sentinel s) = (_, _, _, refl, refl)
with_request_id_from-HasRequestId whole id (message text) = (_, _, _, refl, refl)
with_request_id_from-HasRequestId whole id (wrap text e) =
    with_request_id_from-HasRequestId whole id e
with_request_id_from-HasRequestId whole id (failure cause context) =
    with_request_id_from-HasRequestId whole id cause
with_request_id_from-HasRequestId whole id (connect code e meta) =
    (_, _, _, refl, set_meta_lem meta_request_id id meta)

module _ {A : Type 0} where
  -- The answer names the request: in a header, or in the metadata of the error.
  abbrev pub IsTagged : RequestId → Result (Response A) → Type 0
  IsTagged id (ok res) = first_value (res.header header_request_id) ≡ id
  IsTagged id (err e) = HasRequestId id e

  tag_answer-IsTagged :
      (id : RequestId) (answer : Result (Response A)) → IsTagged id (tag_answer id answer)
  unfolding tag_answer with_request_id set_request_id set_header ◌=s=◌
  tag_answer-IsTagged id (err e) = with_request_id_from-HasRequestId e id e
  tag_answer-IsTagged id (ok res) = refl

abbrev pub IsRequestId : RequestId → Type 0
IsRequestId id = (1 ≤ length id) × (length id ≤ max_id_length) × (new_request_id id ≡ ok id)

request_id-IsRequestId :
    (i : AuditContextInterceptor) (header : Header) (w : World) {id : RequestId}
    → (request_id i header w).0 ≡ ok id
    → IsRequestId id
unfolding request_id generate_request_id
request_id-IsRequestId i header w h = elim (Option-cases (request_id_from_header header)) [
  | inr (value, given) ↦
      new_request_id-bounds value (wrapping-eq-ok _ _ (rw (given, request_id) at h))
  | inl missing ↦
      let made =
        wrapping-eq-ok "generate request ID" (generate_request_id i w).0
          (rw (missing, request_id) at h) in
      let (ulid, e, accepted) =
        >>=-eq-ok
          (wrapping "generate new ulid" (new_ulid (i.random w.readings) (i.clock w.readings))) _
          made in
      new_request_id-bounds (codes "req_" ++ ulid)
        (wrapping-eq-ok "wrap generated request ID" _ accepted)
]

module _ {A : Type 0} (lower_unicode : Bytes → Bytes) (net : Network) (i : AuditContextInterceptor)
    (header : Header) (peer : Bytes) (next : Context → Exec (Response A)) (ctx : Context)
    (w : World) where
  -- The request went on with its metadata on the context, and its answer is that of what follows
  -- but for the identifier.
  abbrev pub IsPassedOn : RequestId → World → Result (Response A) × World → Type 0
  IsPassedOn id w' result =
      (c : Client) × (client net i header peer ≡ ok c)
      × (let after = next (with_metadata ctx (metadata_of lower_unicode header id c)) w' in
          result ≡ (tag_answer id after.0, after.1))

  -- The client is not known: nothing ran, and the error is that of the reading of its address, with
  -- the identifier.
  abbrev pub IsStopped : RequestId → World → Result (Response A) × World → Type 0
  IsStopped id w' result =
      (e : Error) × (client net i header peer ≡ err e)
      × (result ≡ (err (with_request_id (handle_audit_interceptor_error e) id), w'))

  pass_on-IsTagged :
      (id : RequestId) (w' : World)
      → let result = pass_on lower_unicode net i header peer next ctx (ok id) w' in
        IsTagged id result.0 × (IsPassedOn id w' result ⊎ IsStopped id w' result)
  unfolding pass_on tag_answer with_request_id
  pass_on-IsTagged id w' = elim (Result-cases (client net i header peer)) [
    | inl (c, known) ↦ (
      rw (known, IsTagged, pass_on) (tag_answer-IsTagged id _),
      inl (c, known, rw (known, pass_on) refl),
    )
    | inr (e, lost) ↦ (
      rw (lost, IsTagged, pass_on)
          (with_request_id_from-HasRequestId (handle_audit_interceptor_error e) id
            (handle_audit_interceptor_error e)),
      inr (e, lost, rw (lost, pass_on) refl),
    )
  ]

  -- Either a request gets no identifier, and is refused before anything else runs; or it has one
  -- within the bounds of an identifier, the answer names it, a success in its header and an error
  -- in its metadata, and what follows ran with the identifier and the client on the context, or it
  -- did not run since the address of the client was not read, and the error is that failure.
  pub wrap_audit-IsTagged :
      let result = wrap_audit lower_unicode net i header peer next ctx w in
      let (id, w') = request_id i header w in
      ((e : Error) × (id ≡ err e) × (result ≡ (err (handle_audit_interceptor_error e), w')))
      ⊎ ((id' : RequestId) × (id ≡ ok id')
          × IsRequestId id'
          × IsTagged id' result.0
          × (IsPassedOn id' w' result ⊎ IsStopped id' w' result))
  unfolding wrap_audit pass_on
  wrap_audit-IsTagged = elim (Result-cases (request_id i header w).0) [
    | inr (e, bad) ↦ inl (e, bad, rw (bad, wrap_audit) refl)
    | inl (id, named) ↦
        let (tagged, ran) = pass_on-IsTagged id (request_id i header w).1 in
        inr (
          id,
          named,
          request_id-IsRequestId i header w named,
          rw (named, IsTagged, wrap_audit) tagged,
          rw (named, wrap_audit) ran,
        )
  ]
