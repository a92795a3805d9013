-- ===== src/Strings/Clean.antt =====
-- `path.Clean`
pub mod Laws
pub mod Relative
use canterbury.Base.{
  ℕ, Bool, true, false, List, [], ◌∷◌, reverse, Bytes, ◌==◌, ◌=s=◌, if◌then◌else◌,
}
use canterbury.Strings.Split.{split_on, join}

abbrev pub slash : ℕ
slash = b'/'

abbrev pub dot : Bytes
dot = b'.' ∷ []

abbrev pub dot_dot : Bytes
dot_dot = b'.' ∷ b'.' ∷ []

-- `..`: the stack has the last element of the output at its head. It keeps the leading `..` of a
-- relative path.
unfoldable pub go_up : Bool → List Bytes → List Bytes
go_up true [] = []
go_up false [] = dot_dot ∷ []
go_up rooted (top ∷ stack) = if top =s= dot_dot then dot_dot ∷ top ∷ stack else stack

-- One element of the path.
unfoldable pub step : Bool → List Bytes → Bytes → List Bytes
step rooted stack [] = stack
step rooted stack (c ∷ part) =
    if (c ∷ part) =s= dot
    then stack
    else if (c ∷ part) =s= dot_dot
    then go_up rooted stack
    else (c ∷ part) ∷ stack

unfoldable pub run : Bool → List Bytes → List Bytes → List Bytes
run rooted stack [] = reverse stack
run rooted stack (part ∷ parts) = run rooted (step rooted stack part) parts

abbrev pub or_dot : List Bytes → Bytes
or_dot [] = dot
or_dot (part ∷ parts) = join slash (part ∷ parts)

unfoldable pub clean : Bytes → Bytes
clean [] = dot
clean (c ∷ s) =
    if c == slash
    then slash ∷ join slash (run true [] (split_on slash s))
    else or_dot (run false [] (split_on slash (c ∷ s)))
