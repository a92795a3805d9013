-- ===== src/VaultRpc/Laws.antt =====
-- The handlers of internal/interfaces/vaultrpc: their errors, and what a search answers over the
-- vault service of internal/app/vault and the files of internal/adapters/vaultfs.
use canterbury.Base.{
  true, false, Option, none, some, String, List, [], ◌∷◌, Bytes, ◌≡◌, refl, ap, ◌∙◌, sym, ◌↔◌, map,
  subst, Bool, if◌then◌else◌, arith, inl, inr,
}
use canterbury.Errors.{
  Error, Result, ok, err, message, connect, is, Code, code_of, code_not_found,
  code_permission_denied, permission_denied, note_not_found, Result-cases, >>=-eq-ok, ok-inj,
  wrapping, err≢ok, vault_unavailable, missing_principal, canceled, deadline_exceeded,
  invalid_note_path, invalid_search,
}
use canterbury.Context.{Context}
use canterbury.Domain.Vault.NotePath.{new_note_path}
use canterbury.Domain.Vault.Note.{Note}
use canterbury.Domain.Vault.Search.{SearchNotesPage, SearchNotesQuery, SearchNoteResult}
use canterbury.Service.Exec.{World}
use canterbury.VaultRpc.Request.{SearchNotesRequest, proto_to_search_notes_query}
use canterbury.VaultRpc.Message.{
  Protocol, ResultMessage, note_to_proto, note_metadata_to_proto, note_ref_to_proto,
  search_results_to_proto,
}
use canterbury.VaultRpc.Handlers.{
  VaultServiceHandler, refusal, SearchNotesResponse, classify_system_error, classify_read_error,
  classify_search_error, note_answer, read_answer, handle_read_note, page_answer, search_answer,
  handle_search_notes,
}

-- An error with a code and a text, and no cause from within the program.
abbrev pub IsOpaque : Error → Type 0
IsOpaque e = (code : Code) × (text : String) × (e ≡ connect code (message text) [])

pub if-IsOpaque :
    (b : Bool) {e e' : Error} → IsOpaque e → IsOpaque e' → IsOpaque (if b then e else e')
if-IsOpaque true h h' = h
if-IsOpaque false h h' = h'

pub plain : (code : Code) (text : String) → IsOpaque (refusal code text)
plain code text = (code, text, refl)

pub classify_system_error-IsOpaque : (e : Error) → IsOpaque (classify_system_error e)
unfolding classify_system_error
classify_system_error-IsOpaque e = if-IsOpaque (is e vault_unavailable) (plain _ _) (
    if-IsOpaque (is e missing_principal) (plain _ _) (
      if-IsOpaque (is e canceled) (plain _ _)
        (if-IsOpaque (is e deadline_exceeded) (plain _ _) (plain _ _))))

classify_read_error-IsOpaque : (e : Error) → IsOpaque (classify_read_error e)
unfolding classify_read_error
classify_read_error-IsOpaque e = if-IsOpaque (is e note_not_found) (plain _ _) (
    if-IsOpaque (is e permission_denied) (plain _ _)
      (if-IsOpaque (is e invalid_note_path) (plain _ _) (classify_system_error-IsOpaque e)))

classify_search_error-IsOpaque : (e : Error) → IsOpaque (classify_search_error e)
unfolding classify_search_error
classify_search_error-IsOpaque e =
    if-IsOpaque (is e invalid_search) (plain _ _)
      (if-IsOpaque (is e permission_denied) (plain _ _) (classify_system_error-IsOpaque e))

-- The code of an error of a read: not found exactly where the service did not find the note, and
-- denied exactly where the service found it and denied the access.
pub classify_read_error_code :
    (e : Error)
    → ((code_of (classify_read_error e) ≡ code_not_found) ↔ (is e note_not_found ≡ true))
      × ((code_of (classify_read_error e) ≡ code_permission_denied)
          ↔ ((is e note_not_found ≡ false) × (is e permission_denied ≡ true)))
unfolding classify_read_error classify_system_error code_of
classify_read_error_code e = ground arith

-- A result that is a value, or an error that tells nothing of its cause.
abbrev pub IsAnswer : {A : Type 0} → Result A → Type 0
IsAnswer (ok a) = Unit
IsAnswer (err e) = IsOpaque e

module _ (p : Protocol) where
  read_answer-IsAnswer : (result : Result Note) → IsAnswer (read_answer p result)
  unfolding read_answer note_answer
  read_answer-IsAnswer (err e) = classify_read_error-IsOpaque e
  read_answer-IsAnswer (ok note) = elim (Result-cases (note_to_proto p note)) [
    | inl (m, e) ↦ rw e tt
    | inr (lost, e) ↦ rw e (plain _ _)
  ]

  search_answer-IsAnswer : (result : Result SearchNotesPage) → IsAnswer (search_answer p result)
  unfolding search_answer page_answer
  search_answer-IsAnswer (err e) = classify_search_error-IsOpaque e
  search_answer-IsAnswer (ok page) = elim (Result-cases (search_results_to_proto p page.results)) [
    | inl (m, e) ↦ rw e tt
    | inr (lost, e) ↦ rw e (plain _ _)
  ]

  search_results_to_proto-refs :
      (results : List SearchNoteResult) {messages : List (ResultMessage p)}
      → search_results_to_proto p results ≡ ok messages
      → map (λ (m : ResultMessage p). m.ref) messages
        ≡ map (λ (r : SearchNoteResult). r.ref.path) results
  unfolding search_results_to_proto note_ref_to_proto
  search_results_to_proto-refs [] h = ap (map (λ (m : ResultMessage p). m.ref)) (sym (ok-inj h))
  search_results_to_proto-refs (result ∷ results) h =
      let (metadata, e, h') =
        >>=-eq-ok (wrapping "build metadata proto" (note_metadata_to_proto p result.metadata)) _
          h in
      let (others, e', h'') = >>=-eq-ok (search_results_to_proto p results) _ h' in
      ap (map (λ (m : ResultMessage p). m.ref)) (sym (ok-inj h''))
      ∙ ap (◌∷◌ result.ref.path) (search_results_to_proto-refs results e')

  -- The paths and the cursor of an answer are those of the page.
  abbrev pub IsAnswerOf : SearchNotesResponse p → SearchNotesPage → Type 0
  IsAnswerOf response page =
      (map (λ (m : ResultMessage p). m.ref) response.results
        ≡ map (λ (r : SearchNoteResult). r.ref.path) page.results)
      × (response.next_page_token ≡ page.next_cursor)

  search_answer-ok :
      (result : Result SearchNotesPage) {response : SearchNotesResponse p}
      → search_answer p result ≡ ok response
      → (page : SearchNotesPage) × (result ≡ ok page) × IsAnswerOf response page
  unfolding search_answer page_answer
  search_answer-ok (err e) h = absurd (err≢ok h)
  search_answer-ok (ok page) h = elim (Result-cases (search_results_to_proto p page.results)) [
    | inr (lost, e) ↦ absurd (err≢ok (rw e at h))
    | inl (messages, e) ↦
        subst
          (λ response. (page' : SearchNotesPage) × (ok page ≡ ok page') × IsAnswerOf response page')
          (ok-inj (rw e at h)) (page, refl, (search_results_to_proto-refs page.results e, refl))
  ]

module _ (lower_unicode : Bytes → Bytes) (p : Protocol) (h : VaultServiceHandler) where
  handle_read_note-IsAnswer :
      (ctx : Context) (ref : Option Bytes) (w : World)
      → IsAnswer (handle_read_note lower_unicode p h ctx ref w).0
  unfolding handle_read_note
  handle_read_note-IsAnswer ctx none w = plain _ _
  handle_read_note-IsAnswer ctx (some value) w =
      elim (Result-cases (new_note_path lower_unicode value)) [
        | inl (path, e) ↦ rw (e, IsAnswer, handle_read_note) (read_answer-IsAnswer p _)
        | inr (lost, e) ↦ rw (e, IsAnswer, handle_read_note) (plain _ _)
      ]

  handle_search_notes-IsAnswer :
      (ctx : Context) (request : SearchNotesRequest) (w : World)
      → IsAnswer (handle_search_notes p h ctx request w).0
  unfolding handle_search_notes
  handle_search_notes-IsAnswer ctx request w =
      elim (Result-cases (proto_to_search_notes_query request)) [
        | inl (query, e) ↦ rw (e, IsAnswer, handle_search_notes) (search_answer-IsAnswer p _)
        | inr (lost, e) ↦ rw (e, IsAnswer, handle_search_notes) (plain _ _)
      ]

  -- Every error that a handler answers with has a code and a text of the handler's own,
  -- whatever error the service or the protocol library gave: it holds no error as its cause, and no
  -- metadata.
  pub handlers-IsAnswer :
      (ctx : Context) (ref : Option Bytes) (request : SearchNotesRequest) (w : World)
      → IsAnswer (handle_read_note lower_unicode p h ctx ref w).0
        × IsAnswer (handle_search_notes p h ctx request w).0
  handlers-IsAnswer ctx ref request w =
      (handle_read_note-IsAnswer ctx ref w, handle_search_notes-IsAnswer ctx request w)

  pub handle_search_notes-ok :
      (ctx : Context) (request : SearchNotesRequest) (w : World) {response : SearchNotesResponse p}
      {w' : World}
      → handle_search_notes p h ctx request w ≡ (ok response, w')
      → (query : SearchNotesQuery) × (page : SearchNotesPage) × (proto_to_search_notes_query request
          ≡ ok query)
        × (h.vault.search_notes ctx query w ≡ (ok page, w'))
        × IsAnswerOf p response page
  unfolding handle_search_notes
  handle_search_notes-ok ctx request w answered =
      elim (Result-cases (proto_to_search_notes_query request)) [
        | inr (lost, e) ↦ absurd (err≢ok (ap (λ r. r.0) (rw (e, handle_search_notes) at answered)))
        | inl (query, e) ↦
            let answered' = rw (e, handle_search_notes) at answered in
            let (page, e', is_answer) = search_answer-ok p _ (ap (λ r. r.0) answered') in
            (query, page, e, λ i. (e' i, (answered' i).1), is_answer)
      ]
