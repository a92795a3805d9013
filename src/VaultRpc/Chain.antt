-- ===== src/VaultRpc/Chain.antt =====
-- The interceptors round a handler of internal/interfaces/vaultrpc, in the order in which
-- cmd/vault-service installs them: the audit metadata first, then the authentication.
use canterbury.Base.{suc, subst, Bytes, ◌≡◌, refl, ap, sym, ◌∙◌, inl, inr}
use canterbury.Errors.{Result, ok, err, err≢ok, ok-inj}
use canterbury.Context.{Context, Principal, with_principal, with_metadata}
use canterbury.Domain.Audit.{Client}
use canterbury.Domain.Audit.Identifier.{RequestId}
use canterbury.Service.Exec.{World, Exec, ◌>>=◌, continue, pure}
use canterbury.Bearer.{Header, first_value, bearer_token_from_header}
use canterbury.VaultRpc.AuthContext.{AuthContextInterceptor, wrap_unary}
use canterbury.VaultRpc.AuthContext.Laws.{wrap_unary-IsGuarded}
use canterbury.VaultRpc.AuditContext.{
  Network, AuditContextInterceptor, Response, new_response, set_request_id, header_request_id,
  metadata_of, request_id, tag_answer, wrap_audit,
}
use canterbury.VaultRpc.AuditContext.Laws.{IsRequestId, IsTagged, wrap_audit-IsTagged}

module _ {A : Type 0} where
  unfoldable pub respond : Exec A → Exec (Response A)
  respond handler = do msg ← handler; pure (new_response msg)

  answered :
      (r : Result A) (w : World) {res : Response A} {w' : World}
      → continue r (λ msg. pure (new_response msg)) w ≡ (ok res, w')
      → (r ≡ ok res.msg) × (w ≡ w')
  unfolding new_response
  answered (err e) w h = absurd (err≢ok (ap (λ x. x.0) h))
  answered (ok msg) w h =
      (ap (λ (x : Response A). ok x.msg) (ok-inj (ap (λ x. x.0) h)), ap (λ x. x.1) h)

  respond-ok :
      (handler : Exec A) (w : World) {res : Response A} {w' : World}
      → respond handler w ≡ (ok res, w')
      → handler w ≡ (ok res.msg, w')
  unfolding respond
  respond-ok handler w h = let (e, e') = answered (handler w).0 (handler w).1 h in λ i. (e i, e' i)

  tag_answer-ok :
      (id : RequestId) (answer : Result (Response A)) {res : Response A}
      → tag_answer id answer ≡ ok res
      → (inner : Response A) × (answer ≡ ok inner) × (inner.msg ≡ res.msg)
  unfolding tag_answer set_request_id
  tag_answer-ok id (err e) h = absurd (err≢ok h)
  tag_answer-ok id (ok inner) h = (inner, refl, ap (λ (r : Response A). r.msg) (ok-inj h))

  module _ (lower_unicode : Bytes → Bytes) (net : Network) (audit : AuditContextInterceptor)
      (auth : AuthContextInterceptor) (header : Header) (peer : Bytes) where
    unfoldable pub authenticated : (Context → Exec A) → Context → Exec (Response A)
    authenticated handler = wrap_unary auth header (λ ctx. respond (handler ctx))

    unfoldable pub rpc : (Context → Exec A) → Context → Exec (Response A)
    rpc handler = wrap_audit lower_unicode net audit header peer (authenticated handler)

    -- What a request that is answered has passed.
    pub record IsServed (handler : Context → Exec A) (ctx : Context) (res : Response A) (w' : World)
        : Type 0 where
      pub id : RequestId
      pub c : Client
      pub token : Bytes
      pub p : Principal
      pub before : World
      pub identified : IsRequestId id
      pub named : first_value (res.header header_request_id) ≡ id
      pub bearer : bearer_token_from_header header ≡ ok token
      pub known :
          auth.authenticator.authenticate
            (with_metadata ctx (metadata_of lower_unicode header id c))
            token
          ≡ ok p
      pub handled :
          handler
            (with_principal (with_metadata ctx (metadata_of lower_unicode header id c)) p)
            before
          ≡ (ok res.msg, w')

    -- A request that is answered has an identifier, which the answer names, and a bearer token that
    -- the authenticator accepted for a request with this identifier; the answer is that of the
    -- handler for the principal.
    pub rpc-IsServed :
        (handler : Context → Exec A) (ctx : Context) (w : World) {res : Response A} {w' : World}
        → rpc handler ctx w ≡ (ok res, w')
        → IsServed handler ctx res w'
    unfolding rpc authenticated
    rpc-IsServed handler ctx w {res} {w'} h =
        elim (wrap_audit-IsTagged lower_unicode net audit header peer (authenticated handler) ctx
          w) [
            | inl (e, bad, stopped) ↦ absurd (err≢ok (ap (λ r. r.0) (sym stopped ∙ h)))
            | inr (id, named, identified, tagged, inr (e, _, stopped)) ↦
                absurd (err≢ok (ap (λ r. r.0) (sym stopped ∙ h)))
            | inr (id, named, identified, tagged, inl (c, seen, passed)) ↦
                let w1 = (request_id audit header w).1 in
                let ctx' = with_metadata ctx (metadata_of lower_unicode header id c) in
                let (inner, e, same) = tag_answer-ok id _ (ap (λ r. r.0) (sym passed ∙ h)) in
                elim (wrap_unary-IsGuarded auth header ctx' (λ k. respond (handler k)) w1) [
                  | inr (_, (x, refused, _)) ↦ absurd (err≢ok (sym refused ∙ e))
                  | inl (token, p, bearer, known, through) ↦
                      let w2 = record w1 { readings = suc w1.readings } in
                      let run =
                        respond-ok (handler (with_principal ctx' p)) w2
                          (sym through ∙ (λ i. (e i, ap (λ r. r.1) (sym passed ∙ h) i))) in
                      record {
                        id = id;
                        c = c;
                        token = token;
                        p = p;
                        before = w2;
                        identified = identified;
                        named = subst (IsTagged id) (ap (λ r. r.0) h) tagged;
                        bearer = bearer;
                        known = known;
                        handled = run ∙ (λ i. (ok (same i), w'));
                      }
                ]
          ]
