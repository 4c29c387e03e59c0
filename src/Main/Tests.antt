-- ===== src/Main/Tests.antt =====
-- The program with its options, as a worker (src/weldr.rs).
use weldr.Common.{
  ℕ, String, Bool, true, false, Option, none, some, find, ==_refl, arith, List, [], ◌∷◌, ◌≡◌, refl,
  if◌then◌else◌, ◌==◌, string_partial_eq, nat_beq,
}
use weldr.Config
use weldr.Main.Args.{Arg, flag, SubCommand, App, Matches, HasValues, HasSubCommands}
use weldr.Main.{
  init_logger, connect, accept, set_nodelay, subscription, proxy, Action, reuse_port, bind, main,
  new_core, subscribe, new_v4, reuse_address,
}
use weldr.Manager.Exec.{Command}
use weldr.Manager.{Manager, ok, parent, child, start_workers}
use weldr.Main.Spawned.{start_workers-main}
use weldr.Main.Walk.{walk, worker_script}
use weldr.Main.Script.{main_lem}

-- The matches of a subcommand with the value of one option.
abbrev matched : SubCommand → Arg → String → Matches
matched s arg value = record {
  value_of = λ name. none;
  subcommand_matches = λ name.
      if name == s.name
      then some (λ name'. if name' == arg.name then some value else none)
      else none;
}

-- A command line with no arguments, or with a subcommand and one option of it.
abbrev get_matches : App → List String → Option Matches
get_matches a [] = some (record { value_of = λ name. none; subcommand_matches = λ name. none })
get_matches a (x ∷ []) = none
get_matches a (x ∷ y ∷ []) = none
get_matches a (sub ∷ option ∷ value ∷ []) = elim (find (λ other. other.name == sub) a.subcommands) [
  | none ↦ none
  | some s ↦ elim (find (λ other. flag other == option) s.args) [
    | none ↦ none
    | some arg ↦ some (matched s arg value)
  ]
]
get_matches a (x ∷ y ∷ z ∷ rest) = none

get_matches-unnamed :
    (a : App) (args : List String) (m : Matches) (name : String)
    → get_matches a args ≡ some m
    → m.value_of name ≡ none
get_matches-unnamed a args m name e = ground (arith, e)

get_matches-HasValues : HasValues get_matches
get_matches-HasValues = record {
  undeclared = λ a args m name e _. get_matches-unnamed a args m name e;
}

get_matches-HasSubCommands : HasSubCommands get_matches
get_matches-HasSubCommands = record {
  subcommand = λ a s arg value there has _ _. (
    matched s arg value,
    (λ name'. if name' == arg.name then some value else none),
    rw (there, has, get_matches) refl,
    rw (==_refl s.name) refl,
    rw (==_refl arg.name) refl,
  );
}

abbrev parse : String → Option ℕ
parse text =
    if text == "127.0.0.1:4000"
    then some 4_000
    else if text == "0.0.0.0:8080"
    then some 8_080
    else some 8_687

abbrev fails : Action ℕ → Bool
fails (bind addr) = nat_beq addr 80
fails _ = false

main_lem_example :
    main fails parse get_matches ("worker" ∷ "--id" ∷ "3" ∷ [])
    ≡ walk fails (worker_script 4_000 8_080)
main_lem_example =
    main_lem fails parse 4_000 8_080 8_687 get_matches get_matches-HasValues
      ("worker" ∷ "--id" ∷ "3" ∷ []) refl refl refl

-- A connection whose socket cannot be set up is given up.
abbrev stuck : Action ℕ → Bool
stuck set_nodelay = true
stuck _ = false

given_up :
    (accept stuck ≡ (set_nodelay ∷ [], none))
    × (subscription stuck 4_000 ≡ (connect 4_000 ∷ set_nodelay ∷ [], none))
    × (proxy stuck Config.default ≡ (set_nodelay ∷ [], none))
unfolding accept subscription proxy
given_up = (refl, refl, refl)

-- Where the address is taken, the program ends with that.
abbrev taken : Action ℕ → Bool
taken (bind addr) = true
taken _ = false

stops : main taken parse get_matches ("worker" ∷ "--id" ∷ "3" ∷ []) ≡ (
  init_logger
      ∷ new_core
      ∷ subscribe 4_000
      ∷ new_v4
      ∷ reuse_address true
      ∷ reuse_port true
      ∷ bind 8_080
      ∷ [],
  none,
)
unfolding main
stops = refl

abbrev no_workers : Manager ℕ ℕ
no_workers = record {
  workers = [];
  publisher = record { next_id = 0; subscribers = []; pending = [] };
}

-- The second worker's process
start_workers-main_example :
    let command : Command = record {
      program = "/usr/bin/weldr";
      args = "worker" ∷ "--id" ∷ "1" ∷ [];
    } in
    (main fails parse get_matches command.args ≡ walk fails (worker_script 4_000 8_080))
    × (some (some "/usr/bin/weldr") ≡ some (some command.program))
unfolding start_workers
start_workers-main_example =
    start_workers-main get_matches get_matches-HasValues get_matches-HasSubCommands fails parse
      4_000 8_080 8_687 (some "/usr/bin/weldr") some
      (λ id. if nat_beq id 0 then ok (parent 1000) else ok child) refl refl refl no_workers 5
      (record { program = "/usr/bin/weldr"; args = "worker" ∷ "--id" ∷ "1" ∷ [] }) refl
