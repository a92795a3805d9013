-- ===== src/Domain/Vault/Note.antt =====
-- internal/domain/vault/note.go (the records, `NewTag`) and repository.go.
use canterbury.Base.{ℕ, Bool, List, Bytes, if◌then◌else◌}
use canterbury.Strings.Trim.{is_empty, trim_space}
use canterbury.Errors.{Result, ok, err, sentinel, invalid_tag}
use canterbury.Time.{Time}
use canterbury.Domain.Vault.Access.{ResourceAccess}

abbrev pub NotePath : Type 0
NotePath = Bytes

abbrev pub Tag : Type 0
Tag = Bytes

-- The values of a `map[string]any`, as the YAML decoder and `reflect` show them. A number is
-- the text of its literal, and a value of a type that the program does not convert is named.
mutual
  pub data Value : Type 0 where
    null : Value
    boolean : Bool → Value
    number : Bytes → Value
    text : Bytes → Value
    instant : Time → Value
    object : Fields → Value
    list : Items → Value
    pointer : Value → Value
    unsupported : Bytes → Value

  pub data Items : Type 0 where
    nil : Items
    cons : Value → Items → Items

  pub data Fields : Type 0 where
    end : Fields
    field : Bytes → Value → Fields → Fields

pub record NoteRef : Type 0 where
  pub path : NotePath
  pub title : Bytes

pub record NoteMetadata : Type 0 where
  pub path : NotePath
  pub title : Bytes
  pub tags : List Tag
  pub access : ResourceAccess
  pub frontmatter : List (Bytes × Value)
  pub size_bytes : ℕ
  pub modified_at : Time
  pub has_frontmatter : Bool

pub record Note : Type 0 where
  pub ref : NoteRef
  pub metadata : NoteMetadata
  pub content : Bytes

unfoldable pub new_tag : Bytes → Result Tag
new_tag value =
    let normalized = trim_space value in
    if is_empty normalized then err (sentinel invalid_tag) else ok normalized
