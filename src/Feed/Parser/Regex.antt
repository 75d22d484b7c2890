-- ===== src/Feed/Parser/Regex.antt =====
-- Boost.Regex is a library that the sources only call: matching is a parameter. A match gives the
-- text of each group, empty for a group that takes no part.
use virtual_flight_radar_bac.Common.{ℕ, Option}
use virtual_flight_radar_bac.Common.Text.{Str}

abbrev pub Match : Type 0
Match = ℕ → Str

-- `regex_match` with s_APRS_RE and s_APRSExtRE of AprsParser, and with s_GPGGA_RE of GpsParser.
pub record Regexes : Type 0 where
  pub aprs : Str → Option Match
  pub aprs_ext : Str → Option Match
  pub gpgga : Str → Option Match
