-- ===== src/Tests/Start.antt =====
-- The log, and the start of the program.
use virtual_flight_radar_bac.Common.{
  ℕ, ◌≡◌, refl, Bool, true, false, none, some, List, [], ◌∷◌, ◌++◌, arith,
}
use virtual_flight_radar_bac.Common.Int.{ℤ, pos}
use virtual_flight_radar_bac.Common.Text.{codes}
use virtual_flight_radar_bac.Config.{Reader, Configuration}
use virtual_flight_radar_bac.Config
use virtual_flight_radar_bac.Config.Tree
use virtual_flight_radar_bac.Config.Tree.{PropertyTree}
use virtual_flight_radar_bac.Log
use virtual_flight_radar_bac.Main.{Variables, Files, main}
use virtual_flight_radar_bac.Main.Exit.{IsExit, main-IsExit}
use virtual_flight_radar_bac.Log.{info, debug, error, set_log_file}
use virtual_flight_radar_bac.Log.File.{
  Call, logs, sets_debug, run, lines, all_into, set_log_file-lines,
}
use virtual_flight_radar_bac.Tests.Sample.{whole}

abbrev messages : List Call
messages =
    logs info (codes "now") (codes "start" ∷ [])
    ∷ logs debug (codes "now") (codes "hidden" ∷ [])
    ∷ sets_debug true
    ∷ logs debug (codes "now") (codes "shown" ∷ [])
    ∷ logs error (codes "now") (codes "port " ∷ codes "4353" ∷ [])
    ∷ []

set_log_file-lines_example :
    (run messages (set_log_file (codes "vfrb.log") true Log.initial).0).written
    ≡ Log.initial.written ++ all_into (codes "vfrb.log") (lines Log.initial.is_debug messages)
set_log_file-lines_example = set_log_file-lines (codes "vfrb.log") messages Log.initial

-- A tree without values, and a reader that takes every text for zero.
abbrev empty_tree : PropertyTree ℕ
empty_tree = record { get = λ t path. none; get_child = λ t path. none; read_ini = λ text. some 0 }

abbrev zero_reader : Reader ℤ
zero_reader = record {
  read_double = λ s. some (pos 0);
  read_int32 = λ s. some (pos 0);
  read_uint64 = λ s. some 4353;
}

abbrev disk : Files
disk = record { text_of = λ name. some []; opens = λ name. true }

abbrev flags : Variables
flags = record {
  help = false;
  verbose = true;
  ground_mode = true;
  config = some (codes "vfrb.ini");
  output = some (codes "vfrb.log");
}

abbrev starts : Configuration ℤ ℕ → Bool
starts c = true

main-IsExit_example :
    IsExit empty_tree zero_reader disk starts 4
      (some flags)
      Log.initial
      (main empty_tree zero_reader disk starts 4 (some flags) Log.initial).1
main-IsExit_example =
    main-IsExit empty_tree zero_reader disk starts 4 (some flags) Log.initial
      (λ s z e. ground arith)

-- These arguments start the program.
exit_code : (main empty_tree zero_reader disk starts 4 (some flags) Log.initial).1.0 ≡ 0
unfolding main set_log_file Tree.read_configuration Config.make_configuration
    Config.resolve_position
exit_code = refl
