-- ===== src/VaultFs/Paths.antt =====
-- internal/adapters/vaultfs/path.go, and what it uses of the packages `path` and `filepath`, on a
-- system whose separator is the slash.
pub mod Within
use canterbury.Base.{
  ℕ, String, Bool, true, false, ◌&&◌, ◌||◌, not, Option, none, some, List, [], ◌∷◌, ◌++◌, Bytes,
  codes, ◌==◌, ◌=s=◌, drop, take, length, ◌-◌, any, if◌then◌else◌,
}
use canterbury.Strings.Trim.{is_empty}
use canterbury.Strings.Affix.{has_prefix}
use canterbury.Strings.Split.{split_on, join}
use canterbury.Strings.Clean.{slash, dot, dot_dot, clean}
use canterbury.Errors.{
  Error, Result, ok, err, is, sentinel, wrap, not_exist, note_not_found, invalid_note_path,
}
use canterbury.Time.{Time}
use canterbury.Domain.Vault.Note.{NotePath}

-- The elements of a cleaned path; `/a` has an empty one in front.
unfoldable pub elements : Bytes → List Bytes
elements s = if is_empty s then [] else if s =s= codes "/" then [] ∷ [] else split_on slash s

-- What is left of two paths after the elements that they begin with.
unfoldable pub drop_common : List Bytes → List Bytes → List Bytes × List Bytes
drop_common [] ts = ([], ts)
drop_common (b ∷ bs) [] = (b ∷ bs, [])
drop_common (b ∷ bs) (t ∷ ts) =
    let rest = drop_common bs ts in if b =s= t then rest else (b ∷ bs, t ∷ ts)

-- An element that differs and is `..`, where the target has not ended.
abbrev pub climbs_out : List Bytes → List Bytes → Bool
climbs_out [] ts = false
climbs_out (b ∷ bs) [] = false
climbs_out (b ∷ bs) (t ∷ ts) = b =s= dot_dot

abbrev pub parents : List Bytes → List Bytes
parents [] = []
parents (b ∷ bs) = dot_dot ∷ parents bs

relative : List Bytes × List Bytes → Option Bytes
relative (bs, ts) = if climbs_out bs ts then none else some (join slash (parents bs ++ ts))

rooted : Bytes → Bool
rooted s = has_prefix s (codes "/")

abbrev pub base_path : Bytes → Bytes
base_path base = if clean base =s= dot then [] else clean base

-- `filepath.Rel`, where `none` is an error
unfoldable pub rel : Bytes → Bytes → Option Bytes
unfolding relative rooted
rel base target =
    if clean target =s= clean base
    then some dot
    else if (rooted (base_path base) && not (rooted (clean target)))
        || (not (rooted (base_path base)) && rooted (clean target))
    then none
    else relative (drop_common (elements (base_path base)) (elements (clean target)))

-- `filepath.Join` of two texts
unfoldable pub join_path : Bytes → Bytes → Bytes
join_path [] [] = []
join_path [] (b ∷ t) = clean (b ∷ t)
join_path (a ∷ s) [] = clean (a ∷ s)
join_path (a ∷ s) (b ∷ t) = clean ((a ∷ s) ++ slash ∷ (b ∷ t))

-- `path.Ext`: from the last dot of the last element on
unfoldable pub ext : Bytes → Bytes
ext [] = []
ext (c ∷ s) =
    let rest = ext s in
    if not (is_empty rest)
    then rest
    else if c == b'.' && not (any (λ d. d == slash) s)
    then c ∷ s
    else []

abbrev pub last_of : Bytes → List Bytes → Bytes
last_of default [] = default
last_of default (part ∷ parts) = last_of part parts

unfoldable pub trim_slashes : Bytes → Bytes
trim_slashes [] = []
trim_slashes (c ∷ s) =
    let rest = trim_slashes s in if c == slash && is_empty rest then [] else c ∷ rest

-- `path.Base`
unfoldable pub base : Bytes → Bytes
unfolding trim_slashes
base [] = dot
base (c ∷ s) =
    let name = last_of [] (split_on slash (trim_slashes (c ∷ s))) in
    if is_empty name then codes "/" else name

inside : Option Bytes → Bool
inside none = false
inside (some r) = r =s= dot || (not (r =s= dot_dot) && not (has_prefix r (codes "../")))

unfoldable pub is_within_root : Bytes → Bytes → Bool
unfolding inside
is_within_root root candidate = inside (rel root candidate)

unfoldable pub is_hidden_or_system_name : Bytes → Bool
is_hidden_or_system_name name = has_prefix name (codes ".")

unfoldable pub is_hidden_or_system_path : NotePath → Bool
is_hidden_or_system_path path = any is_hidden_or_system_name (split_on slash path)

-- `os.FileInfo`, of a file that is a link's target
pub record FileInfo : Type 0 where
  pub is_dir : Bool
  pub size : ℕ
  pub mod_time : Time

-- The file system. An error is `os.ErrNotExist` where a file is missing.
pub record Files : Type 0 where
  pub eval_symlinks : Bytes → Result Bytes
  pub stat : Bytes → Result FileInfo
  pub read_file : Bytes → Result Bytes

-- An error that says that a file is missing is told as that of a missing note, under the first
-- text, and another one as it is, under the second.
abbrev pub file_error : String → String → Error → Error
file_error missing other e =
    if is e not_exist then wrap missing (sentinel note_not_found) else wrap other e

unfoldable pub resolved : Bytes → Result Bytes → Result Bytes
resolved root (err e) = err (file_error "resolve note path" "resolve note path symlinks" e)
resolved root (ok candidate) =
    if not (is_within_root root candidate)
    then err (wrap "resolve note path" (sentinel invalid_note_path))
    else ok candidate

unfoldable pub join_vault_path : Files → Bytes → NotePath → Result Bytes
unfolding resolved
join_vault_path files root path = resolved root (files.eval_symlinks (join_path root path))
