-- ===== src/Log.antt =====
-- include/util/Logger.hpp and src/util/Logger.cpp: where the lines of the log go. The mutex makes
-- each call one step; what `get_time` gives is an argument.
pub mod File
use virtual_flight_radar_bac.Common.{
  Bool, true, false, Option, none, some, List, [], ◌∷◌, ◌++◌, if◌then◌else◌,
}
use virtual_flight_radar_bac.Common.Text.{Str, codes}

pub data Level : Type 0 where
  info debug warn error : Level

-- What `m_outStream` and `m_errStream` point to.
pub data Stream : Type 0 where
  console_out console_err log_file : Stream

pub data Destination : Type 0 where
  shown_out shown_err : Destination
  in_file : Str → Destination

-- `file` is what `m_logFile` writes to, if it could be opened. `written` has what was written, in
-- order, each with where it went.
pub record Logger : Type 0 where
  pub out_stream : Stream
  pub err_stream : Stream
  pub is_debug : Bool
  pub file : Option Str
  pub written : List (Destination × Str)

unfoldable pub initial : Logger
initial = record {
  out_stream = console_out;
  err_stream = console_err;
  is_debug = false;
  file = none;
  written = [];
}

abbrev pub label : Level → Str
label info = codes "[INFO]  "
label debug = codes "[DEBUG] "
label warn = codes "[WARN]  "
label error = codes "[ERROR] "

-- `log`: the parts, and an LF.
unfoldable pub joined : List Str → Str
joined [] = b'\n' ∷ []
joined (part ∷ parts) = part ++ joined parts

unfoldable pub line : Level → Str → List Str → Str
unfolding joined
line level time parts = label level ++ time ++ codes ":: " ++ joined parts

-- What is written to a file that is not open is lost.
unfoldable pub put : Stream → Str → Logger → Logger
put console_out s l = record l { written = l.written ++ (shown_out, s) ∷ [] }
put console_err s l = record l { written = l.written ++ (shown_err, s) ∷ [] }
put log_file s l = elim l.file [
  | none ↦ l
  | some name ↦ record l { written = l.written ++ (in_file name, s) ∷ [] }
]

-- `info`, `debug`, `warn` and `error`.
unfoldable pub log : Level → Str → List Str → Logger → Logger
unfolding put line
log info time parts l = put l.out_stream (line info time parts) l
log debug time parts l = if l.is_debug then put l.out_stream (line debug time parts) l else l
log warn time parts l = put l.out_stream (line warn time parts) l
log error time parts l = put l.err_stream (line error time parts) l

unfoldable pub set_debug : Bool → Logger → Logger
set_debug enable l = record l { is_debug = enable }

-- `set_logFile`, by whether the file can be opened; if not, it throws.
unfoldable pub set_log_file : Str → Bool → Logger → Logger × Bool
set_log_file name true l =
    (record l { file = some name; out_stream = log_file; err_stream = log_file }, true)
set_log_file name false l = (record l { file = none }, false)
