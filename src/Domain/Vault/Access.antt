-- ===== src/Domain/Vault/Access.antt =====
-- internal/domain/vault/access.go: scopes, and the access that a note declares.
pub mod Laws
use canterbury.Base.{Bool, true, false, ◌&&◌, not, List, [], ◌∷◌, ◌++◌, Bytes, ◌=s=◌, if◌then◌else◌}
use canterbury.Base.Member.{elem}
use canterbury.Strings.Trim.{is_empty, trim_space}
use canterbury.Errors.{Result, ok, err, sentinel, invalid_scope}

abbrev pub Scope : Type 0
Scope = Bytes

pub record ResourceAccess : Type 0 where
  pub scopes : List Scope

unfoldable pub new_scope : Bytes → Result Scope
new_scope value =
    let normalized = trim_space value in
    if is_empty normalized then err (sentinel invalid_scope) else ok normalized

unfoldable pub has_scope_loop : List Scope → Scope → Bool
has_scope_loop [] scope = false
has_scope_loop (allowed ∷ rest) scope =
    if allowed =s= scope then true else has_scope_loop rest scope

unfoldable pub has_scope : ResourceAccess → Scope → Bool
unfolding has_scope_loop
has_scope a scope = has_scope_loop a.scopes scope

unfoldable pub allows_any : ResourceAccess → List Scope → Bool
allows_any a [] = false
allows_any a (scope ∷ scopes) = if has_scope a scope then true else allows_any a scopes

-- `seen` is the set and `matches` the result so far.
matched_loop : ResourceAccess → List Scope → List Scope → List Scope → List Scope
matched_loop a seen matches [] = matches
matched_loop a seen matches (scope ∷ scopes) =
    let fresh = not (elem scope seen) && has_scope a scope in
    matched_loop a (if fresh then scope ∷ seen else seen)
      (if fresh then matches ++ scope ∷ [] else matches) scopes

unfoldable pub matched_scopes : ResourceAccess → List Scope → List Scope
unfolding matched_loop
matched_scopes a scopes = matched_loop a [] [] scopes
