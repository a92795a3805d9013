-- ===== src/Auth/ScopeMapper.antt =====
-- internal/app/auth/scope_mapper.go, mapping_source.go and lookup_scopes.go
pub mod Adding
pub mod Lookup
use canterbury.Base.{
  ℕ, Bool, ◌&&◌, List, [], ◌∷◌, Option, none, some, Bytes, length, ◌=s=◌, if◌then◌else◌,
}
use canterbury.Strings.Trim.{is_empty, trim_space}
use canterbury.Errors.{Result, ok, err, message, wrapping, ◌>>=◌}
use canterbury.Domain.Vault.Access.{Scope}
use canterbury.Context.{Context}

pub record MappingSubject : Type 0 where
  pub issuer : Bytes
  pub subject : Bytes
  pub scopes : List Scope

pub record MappingDocument : Type 0 where
  pub checksum : Bytes
  pub subjects : List MappingSubject

abbrev pub MappingSource : Type 0
MappingSource = Context → Result MappingDocument

pub record SubjectKey : Type 0 where
  pub issuer : Bytes
  pub subject : Bytes

abbrev pub key_eq : SubjectKey → SubjectKey → Bool
key_eq a b = a.issuer =s= b.issuer && a.subject =s= b.subject

-- A Go map from keys to scopes.
abbrev pub Table : Type 0
Table = List (SubjectKey × List Scope)

unfoldable pub find : Table → SubjectKey → Option (List Scope)
find [] key = none
find ((k, scopes) ∷ table) key = if key_eq k key then some scopes else find table key

pub record ScopeMapper : Type 0 where
  pub source_checksum : Bytes
  pub lookup : Table

abbrev pub is_none {ℓ} : {A : Type ℓ} → Option A → Bool
is_none none = Bool.true
is_none (some a) = Bool.false

abbrev pub no_scopes : List Scope → Bool
no_scopes [] = Bool.true
no_scopes (s ∷ scopes) = Bool.false

abbrev pub key_of : MappingSubject → SubjectKey
key_of mapping = record { issuer = trim_space mapping.issuer; subject = trim_space mapping.subject }

-- One round of the loop of `NewScopeMapper`.
unfoldable pub add_mapping : Table → MappingSubject → Result Table
add_mapping lookup mapping =
    let key = key_of mapping in
    if is_empty key.issuer
    then err (message "issuer must not be blank")
    else if is_empty key.subject
    then err (message "subject must not be blank")
    else elim (find lookup key) [
      | some _ ↦ err (message "duplicate scope mapping")
      | none ↦
          if no_scopes mapping.scopes
          then err (message "scope mapping must include at least one scope")
          else ok ((key, mapping.scopes) ∷ lookup)
    ]

unfoldable pub add_mappings : Table → List MappingSubject → Result Table
add_mappings lookup [] = ok lookup
add_mappings lookup (mapping ∷ rest) = do
  extended ← add_mapping lookup mapping
  add_mappings extended rest

build : MappingDocument → Result ScopeMapper
build document = do
  lookup ← add_mappings [] document.subjects
  ok (record { source_checksum = document.checksum; lookup = lookup })

unfoldable pub new_scope_mapper : Context → Option MappingSource → Result ScopeMapper
unfolding build
new_scope_mapper ctx none = err (message "mapping source is required")
new_scope_mapper ctx (some source) = do
  document ← wrapping "load mapping" (source ctx)
  build document

unfoldable pub mapping_checksum : ScopeMapper → Bytes
mapping_checksum mapper = mapper.source_checksum

unfoldable pub subject_count : ScopeMapper → ℕ
subject_count mapper = length mapper.lookup

pub record ScopeLookup : Type 0 where
  pub scopes : List Scope
  pub mapping_checksum : Bytes

abbrev pub or_nil : Option (List Scope) → List Scope
or_nil none = []
or_nil (some scopes) = scopes

unfoldable pub lookup_scopes : ScopeMapper → Context → Bytes → Bytes → Result ScopeLookup
lookup_scopes mapper ctx issuer subject = elim ctx.cancelled [
  | some e ↦ err e
  | none ↦
      let key : SubjectKey = record { issuer = issuer; subject = subject } in
      ok (record {
        scopes = or_nil (find mapper.lookup key);
        mapping_checksum = mapper.source_checksum;
      })
]
