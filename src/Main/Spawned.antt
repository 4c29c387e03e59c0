-- ===== src/Main/Spawned.antt =====
-- The processes that the manager forks (`start_workers` of src/mgmt/manager.rs) run `main` of
-- src/weldr.rs again.
use weldr.Common.{ℕ, String, Option, some, List, ◌≡◌, refl, ap, sym, ◌∙◌, inl, inr, subst, Bool}
use weldr.Manager.{Manager, IoResult, ForkResult, execs, start_workers}
use mathlib.Core.Option
use weldr.Manager.Exec.{Command, worker_command, to_string, to_string-hyphenless}
use weldr.Manager.Start.{start_workers_lem}
use weldr.Main.Args.{App, Matches, app, worker_subcommand, id_arg, HasValues, HasSubCommands}
use weldr.Main.{Action, main}
use weldr.Main.Walk.{walk, worker_script}
use weldr.Main.Script.{invocation, program, main_lem}

module _ (get_matches : App → List String → Option Matches) (values : HasValues get_matches)
    (subs : HasSubCommands get_matches) where
  -- The command line of a worker is that of one.
  invocation-worker_command :
      (text : String) (id : ℕ)
      → invocation (get_matches app (worker_command text id).args)
        ≡ some (some (some (to_string id)))
  unfolding worker_command
  invocation-worker_command text id =
      let (m, own, matched, works, given) =
        subs.subcommand app worker_subcommand id_arg (to_string id) refl refl refl
          (to_string-hyphenless id) in
      rw matched (rw works (rw given refl))

  module _ {Addr PathBuf : Type 0} (fails : Action Addr → Bool) (parse : String → Option Addr)
      (internal_addr ip admin_ip : Addr) (current_exe : Option PathBuf)
      (to_str : PathBuf → Option String) (fork : ℕ → IoResult ForkResult) where
    module _ (internal_is : parse "127.0.0.1:4000" ≡ some internal_addr)
        (ip_is : parse "0.0.0.0:8080" ≡ some ip)
        (admin_is : parse "0.0.0.0:8687" ≡ some admin_ip) where
      -- A command whose program is the running one, and that makes the calls of a worker.
      abbrev pub Works : Command → Type 0
      Works command =
          (main fails parse get_matches command.args ≡ walk fails (worker_script internal_addr ip))
          × (Option.map to_str current_exe ≡ some (some command.program))

      worker_command-Works :
          (text : String) (k : ℕ) (path : PathBuf)
          → current_exe ≡ some path
          → to_str path ≡ some text
          → Works (worker_command text k)
      unfolding worker_command
      worker_command-Works text k path found readable = (
        main_lem fails parse internal_addr ip admin_ip get_matches values
              (worker_command text k).args internal_is ip_is admin_is
            ∙ ap (program fails internal_addr ip admin_ip) (invocation-worker_command text k),
        ap (Option.map to_str) found ∙ ap some readable,
      )

      -- If clap matches a subcommand with one of its options as that, and gives no value for a name
      -- that no option has, and the three addresses in the code parse, then every process that
      -- `start_workers` turns into another program runs the program itself, whose `main` makes the
      -- calls of a worker's script, in order up to the first that fails.
      pub start_workers-main {ℓ κ} :
          {C : Type ℓ} {U : Type κ} (manager : Manager C U) (count : ℕ) (command : Command)
          → (start_workers current_exe to_str fork manager count).1 ≡ execs command
          → Works command
      start_workers-main manager count command ended =
          elim (start_workers_lem current_exe to_str fork manager count) [
            | inl (ws, is, _, _) ↦ let never = sym ended ∙ ap (λ r. r.1) is in cc (never)
            | inr (inl (e, is, _, _, _)) ↦ let never = sym ended ∙ ap (λ r. r.1) is in cc (never)
            | inr (inr (inl (k, _, _, path, text, found, readable, is))) ↦
                let same = sym ended ∙ ap (λ r. r.1) is in
                let its : worker_command text k ≡ command = cc (same) in
                subst Works its (worker_command-Works text k path found readable)
            | inr (inr (inr (is, _, _, _))) ↦ let never = sym ended ∙ ap (λ r. r.1) is in cc (never)
          ]
