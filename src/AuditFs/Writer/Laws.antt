-- ===== src/AuditFs/Writer/Laws.antt =====
-- The identifier of a writer, as it stands in the names of files.
use canterbury.Base.{
  ℕ, ◌<◌, Bool, true, false, Option, none, some, [], ◌∷◌, ◌++◌, Bytes, codes, all, All, All-mono,
  All-append, All-reverse, Bool-cases, inl, inr, ◌≡◌, ◌≢◌, refl, some-inj, if◌then◌else◌, subst,
  ◌∙◌, arith,
}
use canterbury.Strings.Trim.{is_empty, trim_space}
use canterbury.Strings.Decimal.{itoa}
use canterbury.Strings.Decimal.RoundTrip.{IsDigit, itoa-All}
use canterbury.Errors.{Result, ok, err, wrapping, wrapping-eq-ok, >>=-eq-ok, ok-inj, err≢ok}
use canterbury.Auth.Hash.{hex}
use canterbury.AuditFs.Writer.{
  Recorder, is_separator, is_writer_id_char, normalize_explicit_writer_id, separated,
  drop_separators, trim_separators, sanitize_writer_id_component, default_host, Machine,
  host_component, generate_writer_id, configured_writer_id, writer_id_for, RootFiles, made,
  new_recorder,
}

abbrev pub AreChars : Bytes → Type 0
AreChars id = All (λ c. is_writer_id_char c ≡ true) id

abbrev pub IsWriterId : Bytes → Type 0
IsWriterId id = AreChars id × (id ≢ [])

dash-char : is_writer_id_char b'-' ≡ true
unfolding is_writer_id_char
dash-char = refl

if-AreChars : (b : Bool) (s : Bytes) → AreChars s → AreChars (if b then s else b'-' ∷ s)
if-AreChars true s h = h
if-AreChars false s h = (dash-char, h)

separated-AreChars : (after : Bool) (s : Bytes) → AreChars (separated after s)
unfolding separated
separated-AreChars after [] = tt
separated-AreChars after (c ∷ s) = elim (Bool-cases (is_writer_id_char c)) [
  | inl good ↦ rw (good, separated) (good, separated-AreChars false s)
  | inr bad ↦ rw (bad, separated) (if-AreChars after _ (separated-AreChars true s))
]

drop_separators-AreChars : (s : Bytes) → AreChars s → AreChars (drop_separators s)
unfolding drop_separators
drop_separators-AreChars [] h = tt
drop_separators-AreChars (c ∷ s) h = elim (Bool-cases (is_separator c)) [
  | inl out ↦ rw out (drop_separators-AreChars s h.1)
  | inr kept ↦ rw kept h
]

sanitize-AreChars : (value : Bytes) → AreChars (sanitize_writer_id_component value)
unfolding sanitize_writer_id_component trim_separators
sanitize-AreChars value =
    let p = λ (c : ℕ). is_writer_id_char c ≡ true in
    All-reverse p _ (
      drop_separators-AreChars _ (
        All-reverse p _ (drop_separators-AreChars _ (separated-AreChars false (trim_space value)))))

default_host-IsWriterId : IsWriterId default_host
unfolding is_writer_id_char
default_host-IsWriterId = ((refl, (refl, (refl, (refl, tt)))), λ e. cc)

not_empty : (s : Bytes) → is_empty s ≡ false → s ≢ []
not_empty [] h e = cc
not_empty (c ∷ s) h e = cc

host_component-IsWriterId : (hostname : Result Bytes) → IsWriterId (host_component hostname)
unfolding host_component
host_component-IsWriterId (err e) = default_host-IsWriterId
host_component-IsWriterId (ok hostname) =
    elim (Bool-cases (is_empty (sanitize_writer_id_component hostname))) [
      | inl blank ↦ rw blank default_host-IsWriterId
      | inr named ↦
          rw named
            (sanitize-AreChars hostname, not_empty (sanitize_writer_id_component hostname) named)
    ]

hex-AreChars : (bytes : Bytes) → All (λ b. b < 256) bytes → AreChars (hex bytes)
unfolding hex is_writer_id_char
hex-AreChars [] h = tt
hex-AreChars (b ∷ bytes) (small, h) = (ground arith, (ground arith, hex-AreChars bytes h))

append-IsWriterId : (s t : Bytes) → IsWriterId s → AreChars t → IsWriterId (s ++ t)
append-IsWriterId [] t (h, ne) k = absurd (ne refl)
append-IsWriterId (c ∷ s) t (h, ne) k =
    (All-append (λ c. is_writer_id_char c ≡ true) (c ∷ s) t h k, λ e. cc)

digit-char : (c : ℕ) → IsDigit c → is_writer_id_char c ≡ true
unfolding is_writer_id_char
digit-char c h = ground arith

pid-AreChars : AreChars (codes "-pid")
unfolding is_writer_id_char
pid-AreChars = (refl, (refl, (refl, (refl, tt))))

generate_writer_id-IsWriterId :
    (m : Machine) {id : Bytes}
    → ((bytes : Bytes) → m.random ≡ ok bytes → All (λ b. b < 256) bytes)
    → generate_writer_id m ≡ ok id
    → IsWriterId id
unfolding generate_writer_id
generate_writer_id-IsWriterId m bytes h =
    let (random, e, h') = >>=-eq-ok (wrapping "read random writer ID suffix" m.random) _ h in
    let p = λ (c : ℕ). is_writer_id_char c ≡ true in
    subst IsWriterId (ok-inj h') (
      append-IsWriterId _ _ (host_component-IsWriterId m.hostname) (
        All-append p (codes "-pid") _ pid-AreChars (
          All-append p (itoa m.pid) _ (All-mono IsDigit p digit-char (itoa m.pid) (itoa-All m.pid))
            (dash-char, hex-AreChars random (bytes random (wrapping-eq-ok _ _ e))))))

all-AreChars : (id : Bytes) → all is_writer_id_char id ≡ true → AreChars id
all-AreChars [] h = tt
all-AreChars (c ∷ id) h = ground (arith, all-AreChars id)

normalize_explicit_writer_id-IsWriterId :
    (value : Bytes) {id : Bytes} → normalize_explicit_writer_id value ≡ ok id → IsWriterId id
unfolding normalize_explicit_writer_id
normalize_explicit_writer_id-IsWriterId value h = elim (Bool-cases (is_empty (trim_space value))) [
  | inl blank ↦ absurd (err≢ok (rw blank at h))
  | inr named ↦ elim (Bool-cases (all is_writer_id_char (trim_space value))) [
    | inl good ↦
        subst IsWriterId (ok-inj (rw good at (rw named at h)))
          (all-AreChars (trim_space value) good, not_empty (trim_space value) named)
    | inr bad ↦ absurd (err≢ok (rw bad at (rw named at h)))
  ]
]

writer_id_for-IsWriterId :
    (m : Machine) (option configured : Option Bytes) {id : Bytes}
    → ((bytes : Bytes) → m.random ≡ ok bytes → All (λ b. b < 256) bytes)
    → configured_writer_id option ≡ ok configured
    → writer_id_for m configured ≡ ok id
    → IsWriterId id
unfolding configured_writer_id writer_id_for
writer_id_for-IsWriterId m option none bytes c h =
    generate_writer_id-IsWriterId m bytes (wrapping-eq-ok "generate audit log writer ID" _ h)
writer_id_for-IsWriterId m none (some id) bytes c h = cc
writer_id_for-IsWriterId m (some value) (some id) bytes c h =
    let (accepted, e, c') = >>=-eq-ok (normalize_explicit_writer_id value) _ c in
    subst IsWriterId (some-inj (ok-inj c') ∙ ok-inj h)
      (normalize_explicit_writer_id-IsWriterId value e)

-- A recorder has an identifier of letters, digits, dots, dashes and underscores, at least one,
-- whether it is configured or made from the name of the host; so it has no slash. The random bytes
-- of the system are bytes.
pub new_recorder-IsWriterId :
    (files : RootFiles) (m : Machine) (option : Option Bytes) (root : Bytes) {r : Recorder}
    → ((bytes : Bytes) → m.random ≡ ok bytes → All (λ b. b < 256) bytes)
    → new_recorder files m option root ≡ ok r
    → IsWriterId r.writer_id
unfolding new_recorder configured_writer_id writer_id_for
new_recorder-IsWriterId files m option root bytes h =
    elim (Bool-cases (is_empty (trim_space root))) [
      | inl blank ↦ absurd (err≢ok (rw blank at h))
      | inr named ↦
          let (configured, e, h1) =
            >>=-eq-ok
              (wrapping "configure audit log filesystem recorder" (configured_writer_id option)) _
              (rw named at h) in
          let (writer_id, e', h2) = >>=-eq-ok (writer_id_for m configured) _ h1 in
          let (abs_root, _, h3) =
            >>=-eq-ok
              (wrapping "resolve audit log root absolute path" (files.abs (trim_space root))) _
              h2 in
          let (_, _, h4) =
            >>=-eq-ok (wrapping "create audit log root" (made (files.mkdir_all abs_root))) _ h3 in
          let (resolved, _, h5) =
            >>=-eq-ok (wrapping "resolve audit log root symlinks" (files.eval_symlinks abs_root)) _
              h4 in
          subst (λ (k : Recorder). IsWriterId k.writer_id) (ok-inj h5)
            (writer_id_for-IsWriterId m option configured bytes (wrapping-eq-ok _ _ e) e')
    ]
