-- ===== src/Cli/Programs/Laws.antt =====
-- When the vault service and the MCP server exit with success.
use canterbury.Base.{
  String, Option, none, some, List, [], Bytes, ◌≡◌, ◌↔◌, ◌⊎◌, inl, inr, refl, sym, subst, =s=_iff,
  ◌=s=◌, some-inj, ap, ◌∙◌, true, arith,
}
use canterbury.Errors.{
  Error, Result, ok, err, wrapping, is, flag_help, not_exist, err≢ok, ok-inj, ◌>>=◌,
}
use canterbury.Context.{Context}
use canterbury.Cli.{Application, Handler, Command, find_command, command, help, named, run}
use canterbury.Cli.Laws.{Succeeds, IsRun, run_iff}
use canterbury.Cli.Programs.{
  load_local_env, error_of, run_serve_command, run_healthcheck_command, serve_name,
  healthcheck_name, commands_of, service_program,
}

-- An answer without an error, or a request for help.
abbrev pub Asks : {A : Type 0} → Result A → Type 0
Asks r = (e : Error) × (r ≡ err e) × (is e flag_help ≡ true)

-- A command that asks for help, or that has its configuration and ends without an error.
abbrev pub Finishes : {Config : Type 0} → Result Config → (Config → Result (Unit {0})) → Type 0
Finishes {Config} loaded act =
    Asks loaded ⊎ ((cfg : Config) × (loaded ≡ ok cfg) × ((act cfg ≡ ok tt) ⊎ Asks (act cfg)))

-- The environment is loaded, or there is no file to load it from.
abbrev pub IsReady : Option Error → Type 0
IsReady dotenv = (dotenv ≡ none) ⊎ ((e : Error) × (dotenv ≡ some e) × (is e not_exist ≡ true))

pub load_local_env_iff : (dotenv : Option Error) → (load_local_env dotenv ≡ none) ↔ IsReady dotenv
unfolding load_local_env
load_local_env_iff dotenv = ground arith

-- How the last step of a command ends, with or without a text around its error.
ends_iff :
    (result : Result (Unit {0})) → Succeeds (error_of result) ↔ ((result ≡ ok tt) ⊎ Asks result)
unfolding error_of
ends_iff (ok done) = ((λ h. inl refl), λ h. tt)
ends_iff (err e) = (
  (λ h. inr (e, refl, h)),
  λ h. elim h [
    | inl same ↦ absurd (err≢ok same)
    | inr (e', same, asks) ↦ ground (arith, same, asks)
  ],
)

wrapped_iff :
    (text : String) (result : Result (Unit {0}))
    → Succeeds (error_of (wrapping text result)) ↔ Succeeds (error_of result)
unfolding error_of is
wrapped_iff text (ok done) = ((λ h. h), λ h. h)
wrapped_iff text (err e) = ((λ h. h), λ h. h)

module _ {Config : Type 0} (text : String) (act last : Config → Result (Unit {0}))
    (ends : (cfg : Config)
      → Succeeds (error_of (last cfg)) ↔ ((act cfg ≡ ok tt) ⊎ Asks (act cfg))) where
  -- A command that loads its configuration and acts on it.
  loaded_iff :
      (loaded : Result Config)
      → Succeeds (error_of (wrapping text loaded >>= last)) ↔ Finishes loaded act
  unfolding error_of is
  loaded_iff (err e) = (
    (λ h. inl (e, refl, h)),
    λ h. elim h [
      | inl (e', same, asks) ↦ ground (arith, same, asks)
      | inr (cfg, same, r) ↦ absurd (err≢ok same)
    ],
  )
  loaded_iff (ok cfg) = (
    (λ h. inr (cfg, refl, (ends cfg).0 h)),
    λ h. elim h [
      | inl (e, same, asks) ↦ absurd (err≢ok (sym same))
      | inr (cfg', same, r) ↦
          (ends cfg).1 (subst (λ c. (act c ≡ ok tt) ⊎ Asks (act c)) (sym (ok-inj same)) r)
    ],
  )

module _ {Config : Type 0} where
  run_serve_command_iff :
      (loading stopped : String) (load : List Bytes → Result Config)
      (serve : Context → Config → Result (Unit {0})) (ctx : Context) (args : List Bytes)
      → Succeeds (run_serve_command loading stopped load serve ctx args)
        ↔ Finishes (load args) (serve ctx)
  unfolding run_serve_command
  run_serve_command_iff loading stopped load serve ctx args =
      loaded_iff loading (serve ctx) (λ cfg. wrapping stopped (serve ctx cfg))
        (λ cfg. (
          λ h. (ends_iff (serve ctx cfg)).0 ((wrapped_iff stopped (serve ctx cfg)).0 h),
          λ h. (wrapped_iff stopped (serve ctx cfg)).1 ((ends_iff (serve ctx cfg)).1 h),
        ))
        (load args)

  run_healthcheck_command_iff :
      (load : List Bytes → Result Config) (check : Context → Config → Result (Unit {0}))
      (ctx : Context) (args : List Bytes)
      → Succeeds (run_healthcheck_command load check ctx args) ↔ Finishes (load args) (check ctx)
  unfolding run_healthcheck_command
  run_healthcheck_command_iff load check ctx args =
      loaded_iff "load healthcheck configuration" (check ctx) (check ctx)
        (λ cfg. ends_iff (check ctx cfg)) (load args)

named-two :
    (serve healthcheck : Handler) (name : Bytes) (c : Command)
    → find_command (commands_of serve healthcheck) name ≡ some c
    → ((name ≡ serve_name) × (c.run ≡ some serve))
      ⊎ ((name ≡ healthcheck_name) × (c.run ≡ some healthcheck))
unfolding find_command
named-two serve healthcheck name c h =
    ground (arith, =s=_iff serve_name name, =s=_iff healthcheck_name name)

found_serve :
    (serve healthcheck : Handler)
    → find_command (commands_of serve healthcheck) serve_name
      ≡ some (record { name = serve_name; run = some serve })
unfolding find_command ◌=s=◌
found_serve serve healthcheck = refl

found_healthcheck :
    (serve healthcheck : Handler)
    → find_command (commands_of serve healthcheck) healthcheck_name
      ≡ some (record { name = healthcheck_name; run = some healthcheck })
unfolding find_command ◌=s=◌
found_healthcheck serve healthcheck = refl

handler_eq : {c : Option Handler} {f g : Handler} → c ≡ some f → c ≡ some g → f ≡ g
handler_eq h e = some-inj (sym h ∙ e)

module _ (lower_unicode : Bytes → Bytes) (dotenv : Option Error) (serve healthcheck : Handler)
    (ctx : Context) where
  abbrev program : Application
  program = service_program dotenv serve healthcheck

  -- A command that has one of the two names.
  chosen_iff :
      (name : Bytes) (args : List Bytes)
      → IsRun lower_unicode program ctx name args ↔ (
          IsReady dotenv
          × (((name ≡ serve_name) × Succeeds (serve ctx args))
              ⊎ ((name ≡ healthcheck_name) × Succeeds (healthcheck ctx args))))
  unfolding service_program
  chosen_iff name args = (
    λ (c, handler, found, prepared, runs, ends). (
      (load_local_env_iff dotenv).0
          (elim prepared [ inl e ↦ absurd (ground (arith, e)) | inr e ↦ some-inj e ]),
      elim (named-two serve healthcheck name c found) [
        | inl (same, r) ↦
            inl (same, subst (λ (h : Handler). Succeeds (h ctx args)) (handler_eq runs r) ends)
        | inr (same, r) ↦
            inr (same, subst (λ (h : Handler). Succeeds (h ctx args)) (handler_eq runs r) ends)
      ],
    ),
    λ (ready, which).
        let prepared = ap some ((load_local_env_iff dotenv).1 ready) in
        elim which [
          | inl (same, ends) ↦ (
            _,
            serve,
            ap (find_command _) same ∙ found_serve serve healthcheck,
            inr prepared,
            refl,
            ends,
          )
          | inr (same, ends) ↦ (
            _,
            healthcheck,
            ap (find_command _) same ∙ found_healthcheck serve healthcheck,
            inr prepared,
            refl,
            ends,
          )
        ],
  )

module _ (lower_unicode : Bytes → Bytes) (dotenv : Option Error) {A B : Type 0}
    (loading stopped : String) (load_serve : List Bytes → Result A)
    (serve : Context → A → Result (Unit {0})) (load_check : List Bytes → Result B)
    (check : Context → B → Result (Unit {0})) (ctx : Context) where
  abbrev pub service : Application
  service =
      service_program dotenv (run_serve_command loading stopped load_serve serve)
        (run_healthcheck_command load_check check)

  -- The vault service and the MCP server exit with status 0 exactly when help is asked for, or when
  -- the file of the environment is loaded or absent and one of two commands is given, `serve` or
  -- `healthcheck`, which loads its configuration and ends without an error, or asks for help. Without
  -- an argument the command is `serve`.
  pub service-run_iff :
      (args : List Bytes)
      → (command lower_unicode service [] ≡ named serve_name [])
        × ((run lower_unicode service ctx args ≡ 0) ↔ (
            (command lower_unicode service args ≡ help)
            ⊎ ((rest : List Bytes) × IsReady dotenv
                × (((command lower_unicode service args ≡ named serve_name rest)
                      × Finishes (load_serve rest) (serve ctx))
                    ⊎ ((command lower_unicode service args ≡ named healthcheck_name rest)
                        × Finishes (load_check rest) (check ctx))))))
  unfolding command service_program
  service-run_iff args =
      let ran = run_iff lower_unicode service ctx args in
      let serves = run_serve_command_iff loading stopped load_serve serve ctx in
      let checks = run_healthcheck_command_iff load_check check ctx in
      let one =
        chosen_iff lower_unicode dotenv (run_serve_command loading stopped load_serve serve)
          (run_healthcheck_command load_check check) ctx in
      (
        refl,
        (
          (λ h. elim (ran.0 h) [
            | inl asked ↦ inl asked
            | inr (name, rest, given, r) ↦
                let (ready, which) = (one name rest).0 r in
                inr (
                  rest,
                  ready,
                  elim which [
                    | inl (same, ends) ↦
                        inl (given ∙ ap (λ n. named n rest) same, (serves rest).0 ends)
                    | inr (same, ends) ↦
                        inr (given ∙ ap (λ n. named n rest) same, (checks rest).0 ends)
                  ],
                )
          ]),
          λ h. ran.1 (elim h [
            | inl asked ↦ inl asked
            | inr (rest, ready, which) ↦ inr (elim which [
              | inl (given, ends) ↦ (
                serve_name,
                rest,
                given,
                (one serve_name rest).1 (ready, inl (refl, (serves rest).1 ends)),
              )
              | inr (given, ends) ↦ (
                healthcheck_name,
                rest,
                given,
                (one healthcheck_name rest).1 (ready, inr (refl, (checks rest).1 ends)),
              )
            ])
          ]),
        ),
      )
