-- ===== src/Main.antt =====
-- src/main.cpp: from the arguments to a program that runs, or to an exit code. The parsing of the
-- arguments by Boost and the file system are parameters. Of the log its settings are modelled.
pub mod Exit
use virtual_flight_radar_bac.Common.{
  ℕ, Bool, true, false, ◌||◌, Option, none, some, ltb, if◌then◌else◌,
}
use virtual_flight_radar_bac.Common.Text.{Str}
use virtual_flight_radar_bac.TimeStamp.{◌>>=◌}
use virtual_flight_radar_bac.Double.{Double}
use virtual_flight_radar_bac.Config.{Reader, Configuration}
use virtual_flight_radar_bac.Config.Tree.{PropertyTree, read_configuration}
use virtual_flight_radar_bac.Log.{Logger, set_debug, set_log_file}

-- `variables_map`, by what the program asks of it.
pub record Variables : Type 0 where
  pub help : Bool
  pub verbose : Bool
  pub ground_mode : Bool
  pub config : Option Str
  pub output : Option Str

-- The text of a file that can be read, and whether a log file can be opened.
pub record Files : Type 0 where
  pub text_of : Str → Option Str
  pub opens : Str → Bool

-- `evalArgs`, by `argc` and what Boost makes of `argv`; `none` is what it throws.
unfoldable pub eval_args : ℕ → Option Variables → Option Variables
eval_args argc none = none
eval_args argc (some v) = if ltb argc 3 || v.help then none else some v

-- The first part of `get_config`: the settings of the log, and whether they succeed.
unfoldable pub set_up : Files → Variables → Logger → Logger × Bool
set_up files v l =
    let l' = if v.verbose then set_debug true l else l in
    elim v.output [ none ↦ (l', true) | some name ↦ set_log_file name (files.opens name) l' ]

module _ {W T : Type 0} ⦃d : Double W⦄ (b : PropertyTree T) (r : Reader W) (files : Files) where
  abbrev override : Bool → Configuration W T → Configuration W T
  override true c = record c { ground_mode = true }
  override false c = c

  -- The second part: the configuration of the file.
  unfoldable pub load : Variables → Option (Configuration W T)
  load v = do
    name ← v.config
    text ← files.text_of name
    c ← read_configuration b r text
    some (override v.ground_mode c)

  unfoldable pub get_config : Variables → Logger → Logger × Option (Configuration W T)
  unfolding set_up load
  get_config v l = let (l', done) = set_up files v l in (l', if done then load v else none)

  -- The exit code, with the configuration that the program has run with. `starts` says whether the
  -- constructor of VFRB throws for a configuration: its server may find the port in use.
  unfoldable pub exit_of :
      (Configuration W T → Bool) → Option (Configuration W T) → ℕ × Option (Configuration W T)
  exit_of starts none = (1, none)
  exit_of starts (some c) = if starts c then (0, some c) else (1, none)

  unfoldable pub main :
      (Configuration W T → Bool)
      → ℕ
      → Option Variables
      → Logger
      → Logger × (ℕ × Option (Configuration W T))
  unfolding eval_args get_config exit_of
  main starts argc argv l = elim (eval_args argc argv) [
    | none ↦ (l, exit_of starts none)
    | some v ↦ let (l', c) = get_config v l in (l', exit_of starts c)
  ]
