-- ===== src/Tests/Domain.antt =====
-- The rules of the domain on small data.
use canterbury.Base.{List, [], ◌∷◌, Bytes, codes, ◌≡◌, ◌↔◌, refl, true, Memᴰ, ◌=s=◌, All}
use canterbury.Errors.{ok}
use canterbury.Strings.Trim.{trimming}
use canterbury.Domain.Vault.Access.{ResourceAccess, allows_any}
use canterbury.Domain.Vault.Access.Laws.{allows_any_iff}
use canterbury.Strings.Affix.{has_suffix, has_prefix, contains}
use canterbury.Strings.Case.{to_lower, lower_byte}
use canterbury.Strings.Split.{split_on, join}
use canterbury.Strings.Clean.{slash, clean, run, step, go_up}
use canterbury.Strings.Clean.Laws.{IsPlain}
use canterbury.Domain.Vault.NotePath.{new_note_path}
use canterbury.Domain.Vault.NotePath.Laws.{new_note_path-IsPlain}

abbrev same_bytes : Bytes → Bytes
same_bytes s = s

abbrev access : ResourceAccess
access = record { scopes = codes "team" ∷ codes "staff" ∷ [] }

abbrev held : List Bytes
held = codes "guest" ∷ codes "staff" ∷ codes "staff" ∷ []

allows_any_iff_example :
    (allows_any access held ≡ true) ↔ ((s : Bytes) × Memᴰ s held × Memᴰ s access.scopes)
allows_any_iff_example = allows_any_iff access held

path_accepted : new_note_path same_bytes (codes " a/../b//c.MD ") ≡ ok (codes "b/c.MD")
unfolding new_note_path trimming contains has_prefix has_suffix to_lower lower_byte clean run step
    go_up ◌=s=◌ split_on join
path_accepted = refl

new_note_path-IsPlain_example :
    All IsPlain (split_on slash (codes "b/c.MD"))
    × (has_suffix (to_lower same_bytes (codes "b/c.MD")) (codes ".md") ≡ true)
new_note_path-IsPlain_example =
    new_note_path-IsPlain same_bytes (codes " a/../b//c.MD ") path_accepted
