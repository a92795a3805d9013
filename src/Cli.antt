-- ===== src/Cli.antt =====
-- internal/cliapp: the dispatch of a program's commands, with its exit status. What is written for
-- the user is left out; an error of the parser of flags stands for a request for help.
pub mod Laws
pub mod Programs
use canterbury.Base.{
  ℕ, Bool, ◌||◌, Option, none, some, List, [], ◌∷◌, Bytes, codes, ◌=s=◌, if◌then◌else◌,
}
use canterbury.Strings.Trim.{trim_space}
use canterbury.Strings.Case.{to_lower}
use canterbury.Errors.{Error, is, flag_help}
use canterbury.Context.{Context}

-- `none` is the nil error.
abbrev pub Handler : Type 0
Handler = Context → List Bytes → Option Error

-- `none` is a nil handler.
pub record Command : Type 0 where
  pub name : Bytes
  pub run : Option Handler

pub record Application : Type 0 where
  pub default_command : Bytes
  pub commands : List Command
  pub prepare : Option (Option Error)

-- A command with its arguments, or a request for help.
pub data Parsed : Type 0 where
  help : Parsed
  named : Bytes → List Bytes → Parsed

abbrev is_help : Bytes → Bool
is_help name = name =s= codes "-h" || name =s= codes "--help" || name =s= codes "help"

module _ (lower_unicode : Bytes → Bytes) where
  unfoldable pub command : Application → List Bytes → Parsed
  command app [] = named app.default_command []
  command app (first ∷ args) =
      let name = to_lower lower_unicode (trim_space first) in
      if is_help name then help else named name args

unfoldable pub find_command : List Command → Bytes → Option Command
find_command [] name = none
find_command (c ∷ commands) name =
    let rest = find_command commands name in if c.name =s= name then some c else rest

unfoldable pub exit_status : Option Error → ℕ
exit_status none = 0
exit_status (some e) = if is e flag_help then 0 else 1

unfoldable pub run_handler : Option Handler → Context → List Bytes → ℕ
run_handler none ctx args = 1
run_handler (some handler) ctx args = exit_status (handler ctx args)

-- A nil `Prepare` prepares nothing.
unfoldable pub prepared : Option (Option Error) → ℕ → ℕ
prepared none status = status
prepared (some none) status = status
prepared (some (some e)) status = 1

unfoldable pub run_found : Application → Option Command → Context → List Bytes → ℕ
run_found app none ctx args = 1
run_found app (some c) ctx args = prepared app.prepare (run_handler c.run ctx args)

module _ (lower_unicode : Bytes → Bytes) where
  unfoldable pub run_parsed : Application → Context → Parsed → ℕ
  run_parsed app ctx help = 0
  run_parsed app ctx (named name args) = run_found app (find_command app.commands name) ctx args

  -- `Application.Run`
  unfoldable pub run : Application → Context → List Bytes → ℕ
  run app ctx args = run_parsed app ctx (command lower_unicode app args)
