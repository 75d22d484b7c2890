-- ===== src/Config/Keys.antt =====
-- include/config/Configuration.h: the words of a configuration file, and the paths that they make.
use virtual_flight_radar_bac.Common.{◌∷◌, ◌++◌}
use virtual_flight_radar_bac.Common.Text.{Str, codes}

-- The sections, and the words by which the name of a feed tells its class.
abbrev pub sect_key_fallback : Str
sect_key_fallback = codes "fallback"

abbrev pub sect_key_general : Str
sect_key_general = codes "general"

abbrev pub sect_key_filter : Str
sect_key_filter = codes "filter"

abbrev pub sect_key_aprsc : Str
sect_key_aprsc = codes "aprs"

abbrev pub sect_key_sbs : Str
sect_key_sbs = codes "sbs"

abbrev pub sect_key_gps : Str
sect_key_gps = codes "gps"

abbrev pub sect_key_wind : Str
sect_key_wind = codes "wind"

abbrev pub sect_key_atmos : Str
sect_key_atmos = codes "atm"

-- In the section of the program.
abbrev kv_key_feeds : Str
kv_key_feeds = codes "feeds"

abbrev kv_key_gnd_mode : Str
kv_key_gnd_mode = codes "gndMode"

abbrev kv_key_server_port : Str
kv_key_server_port = codes "serverPort"

-- In that of the position and the pressure.
abbrev kv_key_latitude : Str
kv_key_latitude = codes "latitude"

abbrev kv_key_longitude : Str
kv_key_longitude = codes "longitude"

abbrev kv_key_altitude : Str
kv_key_altitude = codes "altitude"

abbrev kv_key_geoid : Str
kv_key_geoid = codes "geoid"

abbrev kv_key_pressure : Str
kv_key_pressure = codes "pressure"

-- In that of the filters.
abbrev pub kv_key_max_dist : Str
kv_key_max_dist = codes "maxDist"

abbrev pub kv_key_max_height : Str
kv_key_max_height = codes "maxHeight"

-- In that of a feed.
abbrev pub kv_key_host : Str
kv_key_host = codes "host"

abbrev pub kv_key_port : Str
kv_key_port = codes "port"

abbrev pub kv_key_priority : Str
kv_key_priority = codes "priority"

abbrev pub kv_key_login : Str
kv_key_login = codes "login"

-- `PATH`.
abbrev pub path : Str → Str → Str
path section key = section ++ b'.' ∷ key

abbrev pub path_feeds : Str
path_feeds = path sect_key_general kv_key_feeds

abbrev pub path_gnd_mode : Str
path_gnd_mode = path sect_key_general kv_key_gnd_mode

abbrev pub path_server_port : Str
path_server_port = path sect_key_general kv_key_server_port

abbrev pub path_latitude : Str
path_latitude = path sect_key_fallback kv_key_latitude

abbrev pub path_longitude : Str
path_longitude = path sect_key_fallback kv_key_longitude

abbrev pub path_altitude : Str
path_altitude = path sect_key_fallback kv_key_altitude

abbrev pub path_geoid : Str
path_geoid = path sect_key_fallback kv_key_geoid

abbrev pub path_pressure : Str
path_pressure = path sect_key_fallback kv_key_pressure
