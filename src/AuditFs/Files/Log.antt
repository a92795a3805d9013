-- ===== src/AuditFs/Files/Log.antt =====
-- The directory of internal/adapters/auditfs as a log: the lines of each file are those of the
-- events recorded for its date, in order.
use canterbury.Base.{
  ◌≤◌, none, some, List, [], ◌∷◌, ◌++◌, Bytes, ◌=s=◌, ◌≡◌, ◌≢◌, refl, sym, ap, subst, ◌∙◌, inl, inr,
  Bool-cases, All, All-mono, All-append, arith, if◌then◌else◌,
}
use canterbury.Strings.Split.{split_on}
use canterbury.Strings.Split.Laws.{Lacks, split_on-append, split_on-ne-nil}
use mathlib.Core.List.{append_assoc}
use canterbury.Errors.{Error, ok, err}
use canterbury.Context.{Context}
use canterbury.Domain.Audit.{Event}
use canterbury.Encoding.Json.Laws.{Printable}
use canterbury.AuditFs.Data.{event_data_from_domain}
use canterbury.AuditFs.Writer.{Recorder}
use canterbury.AuditFs.Files.{Store, append_to, Disk, record_in_file, line_of, audit_path}
use canterbury.AuditFs.Files.Laws.{IsEntry, record_in_file-IsAppended}

-- The texts that a line feed ends.
abbrev without_last : List Bytes → List Bytes
without_last [] = []
without_last (line ∷ []) = []
without_last (line ∷ next ∷ lines) = line ∷ without_last (next ∷ lines)

unfoldable pub read_lines : Bytes → List Bytes
read_lines content = without_last (split_on 0x0a content)

-- An abstract log: the lines that were put into files, the oldest first.
abbrev pub Entries : Type 0
Entries = List (Bytes × Bytes)

unfoldable pub lines_at : Bytes → Entries → List Bytes
lines_at path [] = []
lines_at path ((p, line) ∷ entries) =
    let rest = lines_at path entries in if p =s= path then line ∷ rest else rest

-- The entry that an event makes, if it makes one.
unfoldable pub entry_of : Recorder → Event → Entries
entry_of r event = elim (event_data_from_domain event) [
  | err e ↦ []
  | ok data' ↦ elim (line_of data') [
    | err e ↦ []
    | ok line ↦ (audit_path r data'.occurred_at, line) ∷ []
  ]
]

-- The entries of the events of recorders, of which the newest stands first.
unfoldable pub entries_of : List (Recorder × Event) → Entries
entries_of [] = []
entries_of ((r, event) ∷ events) = entries_of events ++ entry_of r event

-- What recorders made of an empty directory by calls that succeeded, and calls that failed before
-- they wrote, in any order. The events that were recorded are listed, the newest first.
pub data Recorded : List (Recorder × Event) → Store → Type 0 where
  nothing : Recorded [] (λ path. [])
  success :
      {events : List (Recorder × Event)} {store store' : Store} (disk : Disk) (r : Recorder)
      (ctx : Context) (event : Event)
      → Recorded events store
      → record_in_file disk r ctx event store ≡ (none, store')
      → Recorded ((r, event) ∷ events) store'
  failure :
      {events : List (Recorder × Event)} {store : Store} (disk : Disk) (r : Recorder)
      (ctx : Context) (event : Event) (e : Error)
      → Recorded events store
      → record_in_file disk r ctx event store ≡ (some e, store)
      → Recorded events store

unlines : List Bytes → Bytes
unlines [] = []
unlines (line ∷ lines) = line ++ 0x0a ∷ unlines lines

unlines-append :
    (lines : List Bytes) (line : Bytes)
    → unlines (lines ++ line ∷ []) ≡ unlines lines ++ (line ++ 0x0a ∷ [])
unfolding unlines
unlines-append [] line = refl
unlines-append (l ∷ lines) line =
    ap (λ s. l ++ 0x0a ∷ s) (unlines-append lines line)
    ∙ sym (append_assoc l (0x0a ∷ unlines lines) (line ++ 0x0a ∷ []))

without_last-cons :
    (line : Bytes) (parts : List Bytes)
    → parts ≢ []
    → without_last (line ∷ parts) ≡ line ∷ without_last parts
without_last-cons line [] h = absurd (h refl)
without_last-cons line (part ∷ parts) h = refl

-- Lines without line feeds are read back.
read_lines-unlines :
    (lines : List Bytes) → All (Lacks 0x0a) lines → read_lines (unlines lines) ≡ lines
unfolding read_lines unlines split_on
read_lines-unlines [] h = refl
read_lines-unlines (line ∷ lines) (lacks, h) =
    ap without_last (split_on-append 0x0a line (unlines lines) lacks)
    ∙ without_last-cons line _ (split_on-ne-nil 0x0a (unlines lines))
    ∙ ap (◌∷◌ line) (read_lines-unlines lines h)

lines_at-append :
    (path : Bytes) (entries : Entries) (p line : Bytes)
    → lines_at path (entries ++ (p, line) ∷ [])
      ≡ (if p =s= path then lines_at path entries ++ line ∷ [] else lines_at path entries)
unfolding lines_at
lines_at-append path [] p line = ground arith
lines_at-append path ((q, l) ∷ entries) p line = ground (arith, lines_at-append path entries p line)

Printable-Lacks : (line : Bytes) → Printable line → Lacks 0x0a line
Printable-Lacks line h = All-mono (λ c. 0x20 ≤ c) (λ c. c ≢ 0x0a) (λ c k. omega arith) line h

-- The content of a file is the lines of its entries.
record Holds (entries : Entries) (store : Store) (path : Bytes) : Type 0 where
  content : store path ≡ unlines (lines_at path entries)
  lacks : All (Lacks 0x0a) (lines_at path entries)

append_to-Holds :
    (entries : Entries) (store : Store) (path p line : Bytes)
    → Printable line
    → Holds entries store path
    → Holds (entries ++ (p, line) ∷ []) (append_to store p (line ++ 0x0a ∷ [])) path
unfolding append_to
append_to-Holds entries store path p line printable h = elim (Bool-cases (p =s= path)) [
  | inl same ↦ record {
    content = rw (lines_at-append path entries p line) (
        rw (same, append_to)
          (ap (λ c. c ++ (line ++ 0x0a ∷ [])) h.content
            ∙ sym (unlines-append (lines_at path entries) line)));
    lacks =
        rw (lines_at-append path entries p line)
          (rw same (All-append (Lacks 0x0a) _ _ h.lacks (Printable-Lacks line printable, tt)));
  }
  | inr other ↦ record {
    content = rw (lines_at-append path entries p line) (rw (other, append_to) h.content);
    lacks = rw (lines_at-append path entries p line) (rw other h.lacks);
  }
]

entry_of-IsEntry :
    (r : Recorder) (event : Event) (path line : Bytes)
    → IsEntry r event path line
    → entry_of r event ≡ (path, line) ∷ []
unfolding entry_of
entry_of-IsEntry r event path line e =
    rw (e.from_event, entry_of) (rw e.marshalled (λ i. (sym e.dated i, line) ∷ []))

Recorded-Holds :
    {events : List (Recorder × Event)} {store : Store}
    → Recorded events store
    → (path : Bytes) → Holds (entries_of events) store path
unfolding entries_of lines_at unlines
Recorded-Holds nothing path = record { content = refl; lacks = tt }
Recorded-Holds (failure disk r ctx event e before run) path = Recorded-Holds before path
Recorded-Holds (success {events} {store} disk r ctx event before run) path =
    let (p, line, entry, printable, appended) =
      record_in_file-IsAppended disk r store ctx event run in
    subst (λ (s : Store). Holds (entries_of ((r, event) ∷ events)) s path) (sym appended)
      (rw (entry_of-IsEntry r event p line entry) (
        append_to-Holds (entries_of events) store path p line printable
          (Recorded-Holds before path)))

-- Where several recorders share a directory, the lines of each file are those of the events that
-- were recorded for it, in the order in which they were, however the calls follow one another and
-- however many of them failed before they wrote.
pub read_lines-Recorded :
    (events : List (Recorder × Event)) (store : Store)
    → Recorded events store
    → (path : Bytes) → read_lines (store path) ≡ lines_at path (entries_of events)
read_lines-Recorded events store run path =
    let h = Recorded-Holds run path in ap read_lines h.content ∙ read_lines-unlines _ h.lacks
