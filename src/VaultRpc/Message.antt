-- ===== src/VaultRpc/Message.antt =====
-- internal/interfaces/vaultrpc/proto_struct.go, proto_note.go and proto_search.go: notes and search
-- results as messages. What the protocol library makes of a map and of an instant is a parameter,
-- and so is the text of an instant, `time.Time.Format`.
use canterbury.Base.{ℕ, List, [], ◌∷◌, Bytes}
use canterbury.Errors.{Result, ok, err, message, wrapping, ◌>>=◌}
use canterbury.Time.{Time}
use canterbury.Domain.Vault.Note.{
  Value, Items, Fields, null, boolean, number, text, instant, object, list, pointer, unsupported,
  nil, cons, end, field, Note, NoteRef, NoteMetadata,
}
use canterbury.Domain.Vault.Search.{SearchNoteResult}

-- The library, with the types of its two messages.
pub record Protocol : Type 1 where
  pub Struct : Type 0
  pub Timestamp : Type 0
  pub format_nano : Time → Bytes
  pub new_struct : List (Bytes × Value) → Result Struct
  pub new_timestamp : Time → Timestamp

module _ (format_nano : Time → Bytes) where
  unfoldable mutual
    pub normalize_struct_value : Value → Result Value
    normalize_struct_value null = ok null
    normalize_struct_value (boolean b) = ok (boolean b)
    normalize_struct_value (number n) = ok (number n)
    normalize_struct_value (text s) = ok (text s)
    normalize_struct_value (instant t) = ok (text (format_nano t))
    normalize_struct_value (object fields) =
        normalize_fields fields >>= λ normalized. ok (object normalized)
    normalize_struct_value (list items) =
        normalize_struct_list items >>= λ normalized. ok (list normalized)
    normalize_struct_value (pointer value) = normalize_struct_value value
    normalize_struct_value (unsupported type) = err (message "unsupported value type")

    pub normalize_fields : Fields → Result Fields
    normalize_fields end = ok end
    normalize_fields (field key value fields) =
        let rest = normalize_fields fields in
        wrapping "normalize property" (normalize_struct_value value) >>= λ normalized.
        rest >>= λ others. ok (field key normalized others)

    pub normalize_struct_list : Items → Result Items
    normalize_struct_list nil = ok nil
    normalize_struct_list (cons value items) =
        let rest = normalize_struct_list items in
        wrapping "normalize list item" (normalize_struct_value value) >>= λ normalized.
        rest >>= λ others. ok (cons normalized others)

  unfoldable pub normalize_struct_map : List (Bytes × Value) → Result (List (Bytes × Value))
  normalize_struct_map [] = ok []
  normalize_struct_map ((key, value) ∷ data') =
      let rest = normalize_struct_map data' in
      wrapping "normalize property" (normalize_struct_value value) >>= λ normalized.
      rest >>= λ others. ok ((key, normalized) ∷ others)

module _ (p : Protocol) where
  pub record MetadataMessage : Type 0 where
    pub title : Bytes
    pub tags : List Bytes
    pub size_bytes : ℕ
    pub modified_at : p.Timestamp
    pub properties : p.Struct

  -- A reference has one field, its path.
  pub record NoteMessage : Type 0 where
    pub ref : Bytes
    pub metadata : MetadataMessage
    pub content : Bytes

  pub record ResultMessage : Type 0 where
    pub ref : Bytes
    pub metadata : MetadataMessage
    pub snippet : Bytes

  unfoldable pub frontmatter_to_proto : List (Bytes × Value) → Result p.Struct
  frontmatter_to_proto frontmatter =
      normalize_struct_map p.format_nano frontmatter >>= λ normalized. p.new_struct normalized

  unfoldable pub note_ref_to_proto : NoteRef → Bytes
  note_ref_to_proto ref = ref.path

  unfoldable pub note_metadata_to_proto : NoteMetadata → Result MetadataMessage
  note_metadata_to_proto metadata =
      wrapping "convert frontmatter to properties" (frontmatter_to_proto metadata.frontmatter)
      >>= λ properties. ok (record {
        title = metadata.title;
        tags = metadata.tags;
        size_bytes = metadata.size_bytes;
        modified_at = p.new_timestamp metadata.modified_at;
        properties = properties;
      })

  unfoldable pub note_to_proto : Note → Result NoteMessage
  note_to_proto note =
      wrapping "build metadata proto" (note_metadata_to_proto note.metadata) >>= λ metadata.
      ok (record { ref = note_ref_to_proto note.ref; metadata = metadata; content = note.content })

  unfoldable pub search_results_to_proto : List SearchNoteResult → Result (List ResultMessage)
  search_results_to_proto [] = ok []
  search_results_to_proto (result ∷ results) =
      let rest = search_results_to_proto results in
      wrapping "build metadata proto" (note_metadata_to_proto result.metadata) >>= λ metadata.
      rest >>= λ others. ok (
        record { ref = note_ref_to_proto result.ref; metadata = metadata; snippet = result.snippet }
        ∷ others)
