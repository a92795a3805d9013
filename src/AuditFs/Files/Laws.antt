-- ===== src/AuditFs/Files/Laws.antt =====
-- What one call of `Record` does to the files of internal/adapters/auditfs.
use canterbury.Base.{
  ℕ, Option, none, some, Option-cases, List, [], ◌∷◌, ◌++◌, Bytes, take, length, ◌≡◌, ◌≢◌, refl,
  sym, ap, subst, ◌∙◌, ◌⊎◌, inl, inr, arith,
}
use canterbury.Errors.{Error, ok, >>=-eq-ok, ok-inj, Result-cases}
use canterbury.Context.{Context}
use canterbury.Domain.Audit.{Event}
use canterbury.Encoding.Json.Laws.{Printable, print-Printable}
use canterbury.AuditFs.Data.{EventData, event_data_from_domain}
use canterbury.AuditFs.Data.Marshal.{event_json}
use canterbury.AuditFs.Writer.{Recorder}
use canterbury.AuditFs.Files.{
  Store, append_to, Disk, audit_path, or_else, open_audit_file, written_all, line_of, append_line,
  append_jsonl, sync_and_close, record_data, record_in_file,
}

-- The line of an event, and the file that it belongs to.
pub record IsEntry (r : Recorder) (event : Event) (path line : Bytes) : Type 0 where
  pub converted : EventData
  pub from_event : event_data_from_domain event ≡ ok converted
  pub marshalled : line_of converted ≡ ok line
  pub dated : path ≡ audit_path r converted.occurred_at

line_of-Printable : (data' : EventData) {line : Bytes} → line_of data' ≡ ok line → Printable line
unfolding line_of
line_of-Printable data' h =
    let (json, e, h') = >>=-eq-ok (event_json data') _ h in
    subst Printable (ok-inj h') (print-Printable json)

take_all {ℓ} : {A : Type ℓ} (xs : List A) → take (length xs) xs ≡ xs
take_all [] = refl
take_all (x ∷ xs) = ap (◌∷◌ x) (take_all xs)

none≢some {ℓ} : {A : Type ℓ} {a : A} → none ≢ some a
none≢some e = cc

or_else-none : (o next : Option Error) → or_else o next ≡ none → (o ≡ none) × (next ≡ none)
or_else-none none next h = (refl, h)
or_else-none (some e) next h = absurd (none≢some (sym h))

written_all-none : (written size : ℕ) → written_all written size ≡ none → written ≡ size
unfolding written_all
written_all-none written size h = ground arith

sync_and_close-none :
    (disk : Disk) (path : Bytes) (failed : Option Error)
    → sync_and_close disk path failed ≡ none
    → failed ≡ none
unfolding sync_and_close
sync_and_close-none disk path none h = refl
sync_and_close-none disk path (some e) h = absurd (none≢some (sym h))

module _ (disk : Disk) (r : Recorder) (store : Store) where
  -- How much of the line of the event went to its file.
  abbrev pub IsWritten : Event → ℕ → Bytes → Bytes → Store → Type 0
  IsWritten event n path line store' =
      IsEntry r event path line × (store' ≡ append_to store path (take n (line ++ 0x0a ∷ [])))

  abbrev pub IsAppended : Event → Store → Type 0
  IsAppended event store' =
      (path : Bytes) × (line : Bytes) × IsEntry r event path line
      × Printable line
      × (store' ≡ append_to store path (line ++ 0x0a ∷ []))

  append_line-none :
      (path line : Bytes) {store' : Store}
      → append_line disk path line store ≡ (none, store')
      → store' ≡ append_to store path (line ++ 0x0a ∷ [])
  unfolding append_line written_all
  append_line-none path line h =
      let data' = line ++ 0x0a ∷ [] in
      let (_, whole) = or_else-none _ _ (ap (λ x. x.0) h) in
      sym (ap (λ x. x.1) h)
      ∙ ap (λ n. append_to store path (take n data'))
          (written_all-none (disk.write path data').0 (length data') whole)
      ∙ ap (append_to store path) (take_all data')

  record_data-IsAppended :
      (event : Event) (data' : EventData) {store' : Store}
      → event_data_from_domain event ≡ ok data'
      → record_data disk r data' store ≡ (none, store')
      → IsAppended event store'
  unfolding record_data append_jsonl sync_and_close
  record_data-IsAppended event data' from h =
      elim (Option-cases (open_audit_file disk r data'.occurred_at)) [
        | inr (e, shut) ↦ absurd (none≢some (sym (ap (λ x. x.0) (rw (shut, record_data) at h))))
        | inl opened ↦ elim (Result-cases (line_of data')) [
          | inr (e, lost) ↦ absurd (
              none≢some (
                sym (
                  sync_and_close-none disk (audit_path r data'.occurred_at) _
                    (ap (λ x. x.0) (rw lost at (rw (opened, record_data) at h))))))
          | inl (line, printed) ↦
              let path = audit_path r data'.occurred_at in
              let h' = rw printed at (rw (opened, record_data) at h) in
              let ended = sync_and_close-none disk path _ (ap (λ x. x.0) h') in
              (
                path,
                line,
                record { converted = data'; from_event = from; marshalled = printed; dated = refl },
                line_of-Printable data' printed,
                append_line-none path line (λ i. (ended i, ap (λ x. x.1) h' i)),
              )
        ]
      ]

  -- A call that returns no error has converted the event, and has put its line, which holds no
  -- control character, and a line feed at the end of the file of its date; no other file changes.
  pub record_in_file-IsAppended :
      (ctx : Context) (event : Event) {store' : Store}
      → record_in_file disk r ctx event store ≡ (none, store')
      → IsAppended event store'
  unfolding record_in_file
  record_in_file-IsAppended ctx event h = elim (Option-cases ctx.cancelled) [
    | inr (e, late) ↦ absurd (none≢some (sym (ap (λ x. x.0) (rw (late, record_in_file) at h))))
    | inl live ↦ elim (Result-cases (event_data_from_domain event)) [
      | inr (e, bad) ↦
          absurd (none≢some (sym (ap (λ x. x.0) (rw bad at (rw (live, record_in_file) at h)))))
      | inl (data', from) ↦
          record_data-IsAppended event data' from (rw from at (rw (live, record_in_file) at h))
    ]
  ]

  -- A call, whatever it returns, leaves every file as it is, or has put the first bytes of the
  -- event's line at the end of the file of its date and changed no other.
  pub record_in_file-prefix :
      (ctx : Context) (event : Event)
      → let store' = (record_in_file disk r ctx event store).1 in
        (store' ≡ store)
        ⊎ ((n : ℕ) × (path : Bytes) × (line : Bytes) × IsWritten event n path line store')
  unfolding record_in_file record_data append_jsonl append_line
  record_in_file-prefix ctx event = elim (Option-cases ctx.cancelled) [
    | inr (e, late) ↦ inl (rw (late, record_in_file) refl)
    | inl live ↦ elim (Result-cases (event_data_from_domain event)) [
      | inr (e, bad) ↦ inl (rw (live, record_in_file) (rw bad refl))
      | inl (data', from) ↦ elim (Option-cases (open_audit_file disk r data'.occurred_at)) [
        | inr (e, shut) ↦ inl (rw (live, record_in_file) (rw from (rw (shut, record_data) refl)))
        | inl opened ↦ elim (Result-cases (line_of data')) [
          | inr (e, lost) ↦
              inl (rw (live, record_in_file) (rw from (rw (opened, record_data) (rw lost refl))))
          | inl (line, printed) ↦
              let path = audit_path r data'.occurred_at in
              inr (
                (disk.write path (line ++ 0x0a ∷ [])).0,
                path,
                line,
                (
                  record {
                    converted = data';
                    from_event = from;
                    marshalled = printed;
                    dated = refl;
                  },
                  rw (live, record_in_file) (rw from (rw (opened, record_data) (rw printed refl))),
                ),
              )
        ]
      ]
    ]
  ]
