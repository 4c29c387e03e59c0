-- ===== src/Main/Args.antt =====
-- The options that `main` of src/weldr.rs declares, as data: each record is what one of clap's builders is
-- told. What clap makes of them and of the command line is a parameter.
use Prim.Native.String.{◌++◌}
use weldr.Common.{
  String, Bool, true, false, Option, none, some, List, [], ◌∷◌, ◌≡◌, any, find, ◌==◌,
  string_partial_eq,
}
use weldr.Manager.Exec.{hyphenless}

-- clap's `Arg`
pub record Arg : Type 0 where
  pub name : String
  pub long : String
  pub value_name : String
  pub takes_value : Bool
  pub help : String

-- How it is given on the command line.
abbrev pub flag : Arg → String
flag arg = "--" ++ arg.long

-- clap's `SubCommand`
pub record SubCommand : Type 0 where
  pub name : String
  pub about : String
  pub args : List Arg

-- clap's `App`
pub record App : Type 0 where
  pub name : String
  pub args : List Arg
  pub subcommands : List SubCommand

-- clap's `ArgMatches`: the value of an argument, and what a subcommand was given, if it is there.
pub record Matches : Type 0 where
  pub value_of : String → Option String
  pub subcommand_matches : String → Option (String → Option String)

abbrev pub id_arg : Arg
id_arg = record {
  name = "id";
  long = "id";
  value_name = "id";
  takes_value = true;
  help = "worker id assigned by the manager";
}

abbrev pub worker_subcommand : SubCommand
worker_subcommand = record { name = "worker"; about = "start a worker"; args = id_arg ∷ [] }

abbrev pub app : App
app = record {
  name = "weldr";
  args =
      record {
        name = "admin-ip";
        long = "admin-ip";
        value_name = "admin-ip";
        takes_value = true;
        help = "admin ip and port used to issue commands to cluster. default: 0.0.0.0:8687";
      }
      ∷ record {
        name = "ip";
        long = "ip";
        value_name = "ip";
        takes_value = true;
        help = "listening ip and port for cluster. default: 0.0.0.0:8080";
      }
      ∷ [];
  subcommands = worker_subcommand ∷ [];
}

-- What the code relies on in `get_matches`, which has nothing where the arguments are not those of the
-- program, at which clap ends it. `value_of` has no value for a name that no option of the program has,
-- and the names of subcommands are not looked at.
pub record HasValues (get_matches : App → List String → Option Matches) : Type 0 where
  pub undeclared :
      (a : App) (args : List String) (m : Matches) (name : String)
      → get_matches a args ≡ some m
      → any (λ arg. arg.name == name) a.args ≡ false
      → m.value_of name ≡ none

-- A subcommand with one of its options, in the long form and with a value that is no option, is matched
-- as that.
pub record HasSubCommands (get_matches : App → List String → Option Matches) : Type 0 where
  pub subcommand :
      (a : App) (s : SubCommand) (arg : Arg) (value : String)
      → find (λ other. other.name == s.name) a.subcommands ≡ some s
      → find (λ other. flag other == flag arg) s.args ≡ some arg
      → arg.takes_value ≡ true
      → hyphenless value ≡ true
      → (m : Matches) × (own : String → Option String) × (get_matches a
            (s.name ∷ flag arg ∷ value ∷ [])
          ≡ some m)
        × (m.subcommand_matches s.name ≡ some own)
        × (own arg.name ≡ some value)
