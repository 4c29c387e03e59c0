-- ===== src/Main/Script.antt =====
-- What `main` of src/weldr.rs does, call by call.
use weldr.Common.{
  String, Bool, Option, none, some, List, [], ◌∷◌, ◌≡◌, refl, ap, sym, ◌∙◌, Option-cases, inl, inr,
  drop,
}
use mathlib.Core.Option
use weldr.Config
use weldr.Config.{Config, Timeout}
use weldr.Main.Args.{App, Matches, app, HasValues}
use weldr.Main.{
  run_worker, run_as_manager, Action, Run, main, init_logger, new_core, bind_tcp, start_workers,
}
use weldr.Main.Walk.{
  walk, worker_script, manager_script, walk-perform, panics_after, panics-perform, panics-last,
  run_worker-walk, run-walk,
}

-- Whether the arguments are the program's, have the subcommand, and give it an `id`.
abbrev pub invocation : Option Matches → Option (Option (Option String))
invocation m = Option.map (λ m. Option.map (λ own. own "id") (m.subcommand_matches "worker")) m

module _ {Addr : Type 0} (fails : Action Addr → Bool) where
  -- What is to be done, by what the command line is: not the program's; or without a subcommand; or
  -- with it, and what its `id` is.
  abbrev pub program : Addr → Addr → Addr → Option (Option (Option String)) → Run Addr (Unit {0})
  program internal_addr ip admin_ip none = panics_after fails (init_logger ∷ [])
  program internal_addr ip admin_ip (some none) = walk fails (manager_script internal_addr admin_ip)
  program internal_addr ip admin_ip (some (some none)) =
      panics_after fails (init_logger ∷ new_core ∷ [])
  program internal_addr ip admin_ip (some (some (some id))) =
      walk fails (worker_script internal_addr ip)

  module _ (parse : String → Option Addr) (internal_addr ip admin_ip : Addr) where
    run_as_manager-walk :
        (matches : Matches)
        → matches.value_of "worker" ≡ none
        → parse "0.0.0.0:8687" ≡ some admin_ip
        → run_as_manager fails parse matches internal_addr
          ≡ walk fails (drop 2 (manager_script internal_addr admin_ip))
    unfolding run_as_manager
    run_as_manager-walk matches unnamed admin_is =
        rw (unnamed, admin_is)
          (walk-perform fails (bind_tcp internal_addr) _ _
            (walk-perform fails (start_workers 5) _ _ (run-walk fails admin_ip Config.default)))

    module _ (get_matches : App → List String → Option Matches) (values : HasValues get_matches)
        (args : List String) where
      matched-walk :
          (m : Matches)
          → get_matches app args ≡ some m
          → parse "127.0.0.1:4000" ≡ some internal_addr
          → parse "0.0.0.0:8080" ≡ some ip
          → parse "0.0.0.0:8687" ≡ some admin_ip
          → main fails parse get_matches args
            ≡ program internal_addr ip admin_ip
                (some (Option.map (λ own. own "id") (m.subcommand_matches "worker")))
      unfolding main
      matched-walk m matched internal_is ip_is admin_is =
          let unnamed = values.undeclared app args m "worker" matched refl in
          elim (Option-cases (m.subcommand_matches "worker")) [
            | inl manages ↦
                rw (matched, unnamed, internal_is, ip_is, manages)
                  (walk-perform fails init_logger _ _
                    (walk-perform fails new_core _ _ (run_as_manager-walk m unnamed admin_is)))
            | inr (own, works) ↦ elim (Option-cases (own "id")) [
              | inl missing ↦
                  rw (matched, unnamed, internal_is, ip_is, works, missing, run_worker)
                    (panics-perform fails init_logger _ _ (panics-last fails new_core))
              | inr (id, given) ↦
                  rw (matched, unnamed, internal_is, ip_is, works)
                    (walk-perform fails init_logger _ _ (
                        walk-perform fails new_core _ _
                          (run_worker-walk fails internal_addr ip own id given))
                      ∙ ap (λ i. program internal_addr ip admin_ip (some (some i))) (sym given))
            ]
          ]

      -- If clap gives no value for a name that no option has, and the three addresses in the code
      -- parse, then `main` makes the calls of the manager's script, or with the subcommand and an
      -- id those of the worker's, in order up to the first that fails; with the subcommand and no
      -- id it starts the logger and the event loop and no more, and where clap refuses the command
      -- line it starts the logger alone, and ends; no value of another option changes that.
      pub main_lem :
          parse "127.0.0.1:4000" ≡ some internal_addr
          → parse "0.0.0.0:8080" ≡ some ip
          → parse "0.0.0.0:8687" ≡ some admin_ip
          → main fails parse get_matches args
            ≡ program internal_addr ip admin_ip (invocation (get_matches app args))
      unfolding main
      main_lem internal_is ip_is admin_is = elim (Option-cases (get_matches app args)) [
        | inl refused ↦ rw refused (panics-last fails init_logger)
        | inr (m, matched) ↦
            matched-walk m matched internal_is ip_is admin_is
            ∙ ap (program internal_addr ip admin_ip) (ap (Option.map _) (sym matched))
      ]
