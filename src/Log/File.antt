-- ===== src/Log/File.antt =====
-- What goes to a log file.
use mathlib.Core.List.{append_assoc, append-nil}
use virtual_flight_radar_bac.Common.{
  ◌≡◌, refl, sym, ◌∙◌, Bool, true, some, List, [], ◌∷◌, ◌++◌, if◌then◌else◌, arith,
}
use virtual_flight_radar_bac.Common.Text.{Str}
use virtual_flight_radar_bac.Log.{
  Stream, console_out, console_err, Level, info, debug, warn, error, log_file, Destination, in_file,
  Logger, line, put, log, set_debug, set_log_file,
}

pub data Call : Type 0 where
  logs : Level → Str → List Str → Call
  sets_debug : Bool → Call

unfoldable pub run : List Call → Logger → Logger
run [] l = l
run (logs level time parts ∷ cs) l = run cs (log level time parts l)
run (sets_debug enable ∷ cs) l = run cs (set_debug enable l)

-- The lines that calls are to give, in order: those for debugging while that is enabled, and all
-- others.
pub lines : Bool → List Call → List Str
lines enabled [] = []
lines enabled (logs debug time parts ∷ cs) =
    if enabled then line debug time parts ∷ lines enabled cs else lines enabled cs
lines enabled (logs level time parts ∷ cs) = line level time parts ∷ lines enabled cs
lines enabled (sets_debug enable ∷ cs) = lines enable cs

abbrev pub into : Str → Str → Destination × Str
into name s = (in_file name, s)

abbrev pub all_into : Str → List Str → List (Destination × Str)
all_into name [] = []
all_into name (s ∷ rest) = into name s ∷ all_into name rest

-- Both pointers are at a file that is open.
record IsAt (name : Str) (l : Logger) : Type 0 where
  out : l.out_stream ≡ log_file
  err : l.err_stream ≡ log_file
  opened : l.file ≡ some name

puts :
    (name s : Str) (stream : Stream) (l : Logger)
    → stream ≡ log_file
    → IsAt name l
    → IsAt name (put stream s l)
      × ((put stream s l).is_debug ≡ l.is_debug)
      × ((put stream s l).written ≡ l.written ++ into name s ∷ [])
unfolding put
puts name s console_out l e a = absurd cc
puts name s console_err l e a = absurd cc
puts name s log_file l e a = ground (arith, a.out, a.err, a.opened)

log-one :
    (name time : Str) (level : Level) (parts : List Str) (l : Logger)
    → IsAt name l
    → IsAt name (log level time parts l)
      × ((log level time parts l).is_debug ≡ l.is_debug)
      × ((log level time parts l).written
          ≡ l.written ++ all_into name (lines l.is_debug (logs level time parts ∷ [])))
unfolding log lines
log-one name time info parts l a = puts name (line info time parts) l.out_stream l a.out a
log-one name time warn parts l a = puts name (line warn time parts) l.out_stream l a.out a
log-one name time error parts l a = puts name (line error time parts) l.err_stream l a.err a
log-one name time debug parts l a =
    ground (arith, puts name (line debug time parts) l.out_stream l a.out a, append-nil l.written)

lines-logs :
    (enabled : Bool) (name time : Str) (level : Level) (parts : List Str) (cs : List Call)
    → all_into name (lines enabled (logs level time parts ∷ cs))
      ≡ all_into name (lines enabled (logs level time parts ∷ []))
        ++ all_into name (lines enabled cs)
unfolding lines
lines-logs enabled name time info parts cs = refl
lines-logs enabled name time warn parts cs = refl
lines-logs enabled name time error parts cs = refl
lines-logs enabled name time debug parts cs = ground arith

run-lines :
    (name : Str) (cs : List Call) (l : Logger)
    → IsAt name l
    → (run cs l).written ≡ l.written ++ all_into name (lines l.is_debug cs)
unfolding run lines set_debug
run-lines name [] l a = sym (append-nil l.written)
run-lines name (sets_debug enable ∷ cs) l a =
    run-lines name cs (set_debug enable l) (record { out = a.out; err = a.err; opened = a.opened })
run-lines name (logs level time parts ∷ cs) l a =
    let (a', same, one) = log-one name time level parts l a in
    run-lines name cs (log level time parts l) a'
    ∙ rw (same, one, lines-logs l.is_debug name time level parts cs)
        (append_assoc l.written (all_into name (lines l.is_debug (logs level time parts ∷ []))) _)

-- Once a log file is set, and while no other one is, each line goes to this file, and in the order
-- of the calls: those of `info`, `warn` and `error`, and those of `debug` while that is enabled.
pub set_log_file-lines :
    (name : Str) (cs : List Call) (l : Logger)
    → (run cs (set_log_file name true l).0).written
      ≡ l.written ++ all_into name (lines l.is_debug cs)
unfolding set_log_file
set_log_file-lines name cs l =
    run-lines name cs _ (record { out = refl; err = refl; opened = refl })
