-- ===== src/Cli/Laws.antt =====
-- When a program exits with success.
use canterbury.Base.{
  Option, none, some, List, [], Bytes, ◌≡◌, ◌↔◌, ◌⊎◌, inl, inr, refl, ◌∙◌, ap, true, arith,
}
use canterbury.Errors.{Error, is, flag_help}
use canterbury.Context.{Context}
use canterbury.Cli.{
  Handler, Command, Application, Parsed, help, named, command, find_command, exit_status,
  run_handler, prepared, run_found, run_parsed, run,
}

-- No error, or a request for help.
abbrev pub Succeeds : Option Error → Type 0
Succeeds none = Unit
Succeeds (some e) = is e flag_help ≡ true

-- Nothing to prepare, or the preparation succeeds.
abbrev pub IsPrepared : Application → Type 0
IsPrepared app = (app.prepare ≡ none) ⊎ (app.prepare ≡ some none)

exit_status_iff : (o : Option Error) → (exit_status o ≡ 0) ↔ Succeeds o
unfolding exit_status
exit_status_iff none = ((λ h. tt), λ h. refl)
exit_status_iff (some e) = ground arith

run_found_iff :
    (app : Application) (found : Option Command) (ctx : Context) (args : List Bytes)
    → (run_found app found ctx args ≡ 0) ↔ (
        (c : Command) × (handler : Handler) × (found ≡ some c)
        × IsPrepared app
        × (c.run ≡ some handler)
        × (exit_status (handler ctx args) ≡ 0))
unfolding run_found prepared run_handler
run_found_iff app found ctx args = ground arith

named_or : Bytes → Parsed → Bytes
named_or other help = other
named_or other (named name args) = name

args_or : List Bytes → Parsed → List Bytes
args_or other help = other
args_or other (named name args) = args

module _ (lower_unicode : Bytes → Bytes) (app : Application) (ctx : Context) where
  -- A handler that runs, and how it ends.
  abbrev pub IsRun : Bytes → List Bytes → Type 0
  IsRun name args =
      (c : Command) × (handler : Handler) × (find_command app.commands name ≡ some c)
      × IsPrepared app
      × (c.run ≡ some handler)
      × Succeeds (handler ctx args)

  run_parsed_iff :
      (parsed : Parsed)
      → (run_parsed lower_unicode app ctx parsed ≡ 0) ↔ (
          (parsed ≡ help)
          ⊎ ((name : Bytes) × (args : List Bytes) × (parsed ≡ named name args) × IsRun name args))
  unfolding run_parsed named_or args_or
  run_parsed_iff help = ((λ h. inl refl), λ h. refl)
  run_parsed_iff (named name args) =
      let found = run_found_iff app (find_command app.commands name) ctx args in
      (
        λ h.
            let (c, handler, e, p, r, s) = found.0 h in
            inr (name, args, refl, (c, handler, e, p, r, (exit_status_iff (handler ctx args)).0 s)),
        λ h. elim h [
          | inl other ↦ cc
          | inr (name', args', same, (c, handler, e, p, r, s)) ↦
              let n : name ≡ name' = ap (named_or []) same in
              let a : args ≡ args' = ap (args_or args) same in
              found.1 (
                c,
                handler,
                ap (find_command app.commands) n ∙ e,
                p,
                r,
                ap (λ x. exit_status (handler ctx x)) a ∙ (exit_status_iff (handler ctx args')).1 s,
              )
        ],
      )

  -- A program exits with status 0 exactly when help is asked for, or when a command has the name
  -- that is given, the preparation succeeds, and the command has a handler that ends without an
  -- error or with a request for help.
  pub run_iff :
      (args : List Bytes)
      → (run lower_unicode app ctx args ≡ 0) ↔ (
          (command lower_unicode app args ≡ help)
          ⊎ ((name : Bytes) × (rest : List Bytes) × (command lower_unicode app args
                ≡ named name rest)
              × IsRun name rest))
  unfolding run
  run_iff args = run_parsed_iff (command lower_unicode app args)
