-- ===== src/VaultFs/Frontmatter/Laws.antt =====
-- How a note is cut into its frontmatter and its body, and the access that it declares.
use mathlib.Core.Bool.{false≢true}
use mathlib.Core.List.{append_assoc}
use canterbury.Base.{
  ℕ, suc, ◌+◌, Bool, true, false, some, List, [], ◌∷◌, ◌++◌, ◌≡◌, refl, sym, ap, subst, ◌∙◌, arith,
  Bytes, length, take, drop, length-append, Bool-cases, inl, inr, ◌==◌, Option-cases, some-inj,
}
use canterbury.Strings.Trim.{is_empty, trim_space}
use canterbury.Strings.Trim.Laws.{trim_space_idem}
use canterbury.Strings.Split.{cons_first}
use canterbury.Errors.{ok, wrapping, >>=-eq-ok, err≢ok, ok-inj}
use canterbury.Domain.Vault.Access.{Scope, allows_any, new_scope}
use canterbury.Domain.Vault.Access.Laws.{default_deny}
use canterbury.VaultFs.Filters.{normalize_set}
use canterbury.VaultFs.Frontmatter.{
  NoteDocument, split_after, is_frontmatter_fence, find_fence, fenced, split_lines,
  split_frontmatter, build_scopes, build_access, Yaml, parse_note_frontmatter, parse_properties,
  parse_note_document,
}

abbrev concat : List Bytes → Bytes
concat [] = []
concat (line ∷ lines) = line ++ concat lines

concat-cons_first : (c : ℕ) (lines : List Bytes) → concat (cons_first c lines) ≡ c ∷ concat lines
concat-cons_first c [] = refl
concat-cons_first c (line ∷ lines) = refl

concat-split_after : (sep : ℕ) (s : Bytes) → concat (split_after sep s) ≡ s
unfolding split_after
concat-split_after sep [] = refl
concat-split_after sep (c ∷ s) = elim (Bool-cases (c == sep)) [
  | inl same ↦ rw same (ap (λ t. c ∷ t) (concat-split_after sep s))
  | inr other ↦
      rw other
        (concat-cons_first c (split_after sep s) ∙ ap (λ t. c ∷ t) (concat-split_after sep s))
]

-- Where the fence is that the loop finds.
record Fence (lines : List Bytes) (end : ℕ) (found : ℕ × ℕ) : Type 0 where
  before : Bytes
  line : Bytes
  after : Bytes
  cut : concat lines ≡ before ++ (line ++ after)
  position : found.0 ≡ end + length before
  width : found.1 ≡ length line
  fence : is_frontmatter_fence line ≡ true

find_fence-Fence :
    (lines : List Bytes) (end : ℕ) {found : ℕ × ℕ}
    → find_fence lines end ≡ some found
    → Fence lines end found
unfolding find_fence
find_fence-Fence [] end h = absurd (ground arith)
find_fence-Fence (line ∷ lines) end {found} h = elim (Bool-cases (is_frontmatter_fence line)) [
  | inl fence ↦
      let e : (end, length line) ≡ found = some-inj (rw fence at h) in
      record {
        before = [];
        line = line;
        after = concat lines;
        cut = refl;
        position = ap (λ (p : ℕ × ℕ). p.0) (sym e) ∙ omega arith;
        width = ap (λ (p : ℕ × ℕ). p.1) (sym e);
        fence = fence;
      }
  | inr other ↦
      let f = find_fence-Fence lines (end + length line) (rw other at h) in
      record {
        before = line ++ f.before;
        line = f.line;
        after = f.after;
        cut = ap (λ t. line ++ t) f.cut ∙ sym (append_assoc line f.before (f.line ++ f.after));
        position = f.position ∙ omega (arith, length-append line f.before);
        width = f.width;
        fence = f.fence;
      }
]

module _ {ℓ} {A : Type ℓ} where
  take-append : (n : ℕ) (xs ys : List A) → take (length xs + n) (xs ++ ys) ≡ xs ++ take n ys
  take-append n [] ys = let e : 0 + n ≡ n = omega arith in rw e refl
  take-append n (x ∷ xs) ys =
      let e : suc (length xs) + n ≡ suc (length xs + n) = omega arith in
      rw e (ap (λ t. x ∷ t) (take-append n xs ys))

  drop-append : (n : ℕ) (xs ys : List A) → drop (length xs + n) (xs ++ ys) ≡ drop n ys
  drop-append n [] ys = let e : 0 + n ≡ n = omega arith in rw e refl
  drop-append n (x ∷ xs) ys =
      let e : suc (length xs) + n ≡ suc (length xs + n) = omega arith in rw e (drop-append n xs ys)

  drop_prefix : (xs ys : List A) → drop (length xs) (xs ++ ys) ≡ ys
  drop_prefix [] ys = refl
  drop_prefix (x ∷ xs) ys = drop_prefix xs ys

  take_prefix : (xs ys : List A) → take (length xs) (xs ++ ys) ≡ xs
  take_prefix [] ys = refl
  take_prefix (x ∷ xs) ys = ap (λ t. x ∷ t) (take_prefix xs ys)

-- The content is an opening fence, the frontmatter, a closing fence and the body.
pub record IsFenced (content frontmatter body : Bytes) : Type 0 where
  pub opening : Bytes
  pub closing : Bytes
  pub opens : is_frontmatter_fence opening ≡ true
  pub closes : is_frontmatter_fence closing ≡ true
  pub whole : content ≡ opening ++ (frontmatter ++ (closing ++ body))

-- The two slices of a content that is cut at known places.
slices :
    (opening before line after : Bytes)
    → let content = opening ++ (before ++ (line ++ after)) in
      (drop (length opening) (take (length opening + length before) content) ≡ before)
      × (drop (length opening + length before + length line) content ≡ after)
slices opening before line after = (
  rw (take-append (length before) opening (before ++ (line ++ after)))
      (rw (take_prefix before (line ++ after)) (drop_prefix opening before)),
  let e : length opening + length before + length line
          ≡ length opening + (length before + length line) =
        omega arith in
      rw e (
        drop-append (length before + length line) opening (before ++ (line ++ after))
        ∙ drop-append (length line) before (line ++ after)
        ∙ drop_prefix line after),
)

fenced_slices :
    (first : Bytes) (lines : List Bytes) {found : ℕ × ℕ} {frontmatter body : Bytes}
    → is_frontmatter_fence first ≡ true
    → Fence lines (length first) found
    → fenced (first ++ concat lines) (length first) (some found) ≡ ok (frontmatter, body, true)
    → IsFenced (first ++ concat lines) frontmatter body
unfolding fenced
fenced_slices first lines {found} {frontmatter} {body} opens f h =
    let cut = slices first f.before f.line f.after in
    let fm : f.before ≡ frontmatter =
      sym cut.0
      ∙ rw (← f.cut) (rw (← f.position) (ap (λ (p : Bytes × Bytes × Bool). p.0) (ok-inj h))) in
    let bd : f.after ≡ body =
      sym cut.1
      ∙ rw (← f.cut) (
          rw (← f.position) (rw (← f.width) (ap (λ (p : Bytes × Bytes × Bool). p.1) (ok-inj h)))) in
    record {
      opening = first;
      closing = f.line;
      opens = opens;
      closes = f.fence;
      whole = rw f.cut (rw fm (rw bd refl));
    }

split_lines-IsFenced :
    (first : Bytes) (lines : List Bytes) {frontmatter body : Bytes}
    → split_lines (first ++ concat lines) (first ∷ lines) ≡ ok (frontmatter, body, true)
    → IsFenced (first ++ concat lines) frontmatter body
unfolding split_lines fenced
split_lines-IsFenced first lines {frontmatter} {body} h =
    elim (Bool-cases (is_frontmatter_fence first)) [
      | inr plain ↦
          absurd (false≢true (ap (λ (p : Bytes × Bytes × Bool). p.2) (ok-inj (rw plain at h))))
      | inl opens ↦ elim (Option-cases (find_fence lines (length first))) [
        | inl unclosed ↦ absurd (err≢ok (rw (opens, unclosed) at h))
        | inr (found, closed) ↦
            fenced_slices first lines opens (find_fence-Fence lines (length first) closed)
              (rw (opens, closed) at h)
      ]
    ]

of_lines :
    (content : Bytes) (lines : List Bytes) {frontmatter body : Bytes}
    → concat lines ≡ content
    → split_lines content lines ≡ ok (frontmatter, body, true)
    → IsFenced content frontmatter body
unfolding split_lines
of_lines content [] e h = absurd (false≢true (ap (λ (p : Bytes × Bytes × Bool). p.2) (ok-inj h)))
of_lines content (first ∷ lines) {frontmatter} {body} e h =
    subst (λ c. IsFenced c frontmatter body) e
      (split_lines-IsFenced first lines
        (subst (λ c. split_lines c (first ∷ lines) ≡ ok (frontmatter, body, true)) (sym e) h))

-- A note whose frontmatter is cut off consists of a fence, the frontmatter, another fence and the
-- body, in this order and with nothing between them.
pub split_frontmatter-IsFenced :
    (content : Bytes) {frontmatter body : Bytes}
    → split_frontmatter content ≡ ok (frontmatter, body, true)
    → IsFenced content frontmatter body
unfolding split_frontmatter
split_frontmatter-IsFenced content h =
    of_lines content (split_after 10 content) (concat-split_after 10 content) h

parse_properties-has :
    (yaml : Yaml) (frontmatter body : Bytes) {document : NoteDocument}
    → parse_properties yaml frontmatter body ≡ ok document
    → document.has_frontmatter ≡ true
unfolding parse_properties
parse_properties-has yaml frontmatter body h =
    let (parsed, _, rest) =
      >>=-eq-ok (wrapping "parse note frontmatter" (parse_note_frontmatter yaml frontmatter)) _ h in
    let (access, _, done) =
      >>=-eq-ok (wrapping "parse access policy" (build_access parsed.0.scopes)) _ rest in
    sym (ap (λ (d : NoteDocument). d.has_frontmatter) (ok-inj done))

undeclared :
    (yaml : Yaml) (content : Bytes) {document : NoteDocument}
    → parse_note_document yaml content ≡ ok document
    → document.has_frontmatter ≡ false
    → document.access.scopes ≡ []
unfolding parse_note_document
undeclared yaml content h lacks =
    let (parts, _, rest) =
      >>=-eq-ok (wrapping "split frontmatter" (split_frontmatter content)) _ h in
    elim (Bool-cases parts.2) [
      | inl has ↦
          absurd
            (false≢true (sym lacks ∙ parse_properties-has yaml parts.0 parts.1 (rw has at rest)))
      | inr none_given ↦
          ap (λ (d : NoteDocument). d.access.scopes) (sym (ok-inj (rw none_given at rest)))
    ]

-- A note without frontmatter is open to nobody, whatever scopes a caller has.
pub parse_note_document-private :
    (yaml : Yaml) (content : Bytes) {document : NoteDocument} (scopes : List Scope)
    → parse_note_document yaml content ≡ ok document
    → document.has_frontmatter ≡ false
    → allows_any document.access scopes ≡ false
parse_note_document-private yaml content scopes h lacks =
    default_deny _ scopes (undeclared yaml content h lacks)

build_scopes-normalize_set :
    (scopes : List Bytes) → build_scopes scopes ≡ ok (normalize_set scopes trim_space)
unfolding build_scopes normalize_set new_scope
build_scopes-normalize_set [] = refl
build_scopes-normalize_set (s ∷ scopes) = elim (Bool-cases (is_empty (trim_space s))) [
  | inl blank ↦ rw blank (build_scopes-normalize_set scopes)
  | inr text ↦
      let again : is_empty (trim_space (trim_space s)) ≡ false =
        ap is_empty (trim_space_idem s) ∙ text in
      rw text (rw again (rw (build_scopes-normalize_set scopes) (rw (trim_space_idem s) refl)))
]

-- The access policy of a note is always read: it declares the scopes that are not blank, without
-- the white space around them.
pub build_access-normalize_set :
    (scopes : List Bytes)
    → build_access scopes ≡ ok (record { scopes = normalize_set scopes trim_space })
unfolding build_access
build_access-normalize_set scopes = rw (build_scopes-normalize_set scopes) refl
