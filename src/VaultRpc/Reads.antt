-- ===== src/VaultRpc/Reads.antt =====
-- The answers to the reads of a note, in internal/interfaces/vaultrpc/read_note.go.
use canterbury.Base.{Option, none, some, Bytes, ◌≡◌, refl, ap, sym, inl, inr}
use canterbury.Errors.{Result, ok, err, err≢ok, ok-inj, Result-cases, wrapping, >>=-eq-ok}
use canterbury.Context.{Context}
use canterbury.Domain.Vault.Note.{Note, NotePath}
use canterbury.Domain.Vault.NotePath.{new_note_path}
use canterbury.Service.Exec.{World}
use canterbury.VaultRpc.Message.{
  Protocol, NoteMessage, note_to_proto, note_metadata_to_proto, note_ref_to_proto,
}
use canterbury.VaultRpc.Handlers.{VaultServiceHandler, read_answer, note_answer, handle_read_note}

module _ (p : Protocol) where
  -- The message has the path and the content of the note.
  abbrev pub IsMessageOf : NoteMessage p → Note → Type 0
  IsMessageOf message note = (message.ref ≡ note.ref.path) × (message.content ≡ note.content)

  note_to_proto-IsMessageOf :
      (note : Note) {message : NoteMessage p}
      → note_to_proto p note ≡ ok message
      → IsMessageOf message note
  unfolding note_to_proto note_ref_to_proto
  note_to_proto-IsMessageOf note h =
      let (metadata, e, h') =
        >>=-eq-ok (wrapping "build metadata proto" (note_metadata_to_proto p note.metadata)) _ h in
      (
        sym (ap (λ (m : NoteMessage p). m.ref) (ok-inj h')),
        sym (ap (λ (m : NoteMessage p). m.content) (ok-inj h')),
      )

  note_answer-ok :
      (r : Result (NoteMessage p)) {message : NoteMessage p}
      → note_answer p r ≡ ok message
      → r ≡ ok message
  unfolding note_answer
  note_answer-ok (err e) h = absurd (err≢ok h)
  note_answer-ok (ok m) h = h

  read_answer-ok :
      (r : Result Note) {message : NoteMessage p}
      → read_answer p r ≡ ok message
      → (note : Note) × (r ≡ ok note) × IsMessageOf message note
  unfolding read_answer
  read_answer-ok (err e) h = absurd (err≢ok h)
  read_answer-ok (ok note) h =
      (note, refl, note_to_proto-IsMessageOf note (note_answer-ok (note_to_proto p note) h))

module _ (lower_unicode : Bytes → Bytes) (p : Protocol) (h : VaultServiceHandler)
    (ctx : Context) where
  -- An answered read names a path that is accepted, and its answer is the note that the service gave.
  pub handle_read_note-ok :
      (ref : Option Bytes) (w : World) {message : NoteMessage p} {w' : World}
      → handle_read_note lower_unicode p h ctx ref w ≡ (ok message, w')
      → (value : Bytes) × (path : NotePath) × (note : Note) × (ref ≡ some value)
        × (new_note_path lower_unicode value ≡ ok path)
        × (h.vault.read_note ctx path w ≡ (ok note, w'))
        × IsMessageOf p message note
  unfolding handle_read_note
  handle_read_note-ok none w answered = absurd (err≢ok (ap (λ r. r.0) answered))
  handle_read_note-ok (some value) w answered =
      elim (Result-cases (new_note_path lower_unicode value)) [
        | inr (lost, e) ↦ absurd (err≢ok (ap (λ r. r.0) (rw (e, handle_read_note) at answered)))
        | inl (path, e) ↦
            let answered' = rw (e, handle_read_note) at answered in
            let (note, found, is_message) =
              read_answer-ok p (h.vault.read_note ctx path w).0 (ap (λ r. r.0) answered') in
            (value, path, note, refl, e, (λ i. (found i, (answered' i).1)), is_message)
      ]
