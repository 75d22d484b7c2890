-- ===== src/Tests/Program.antt =====
-- The configuration, the client manager and the main loop.
use Prim.Native.Nat.{bit_xor}
use virtual_flight_radar_bac.Common.{
  ℕ, ◌+◌, ◌*◌, ◌/◌, ◌%◌, Option, if◌then◌else◌, ◌≡◌, refl, ◌⊎◌, Bool, true, false, none, some, [],
  ◌∷◌, ◌++◌, arith, All,
}
use virtual_flight_radar_bac.Common.Int.{ℤ, pos, negsuc}
use virtual_flight_radar_bac.Common.Text.{Str, codes, str_eq}
use virtual_flight_radar_bac.Config.{Reader, Configuration, split_comma_separated}
use virtual_flight_radar_bac.Common.Print.{show_nat}
use virtual_flight_radar_bac.Config.Tree.{PropertyTree, read_configuration}
use virtual_flight_radar_bac.Config.Resolved.{
  IsResolved, IsUnreadable, read_configuration-IsResolved,
}
use virtual_flight_radar_bac.Config.Lines.{IsItem, split_comma_separated-join}
use virtual_flight_radar_bac.Object.Base.{Object}
use virtual_flight_radar_bac.Feed.Feeds.{aprs, sbs, Lookup}
use virtual_flight_radar_bac.Feed.Factory.{create_feeds}
use virtual_flight_radar_bac.Feed.Factory.Usable.{HasUsable, create_feeds-HasUsable}
use virtual_flight_radar_bac.Client.Manager.{Endpoint, Key, FeedInfo}
use virtual_flight_radar_bac.Data.GpsData
use virtual_flight_radar_bac.Data.Processor.GpsProcessor.{Tm}
use virtual_flight_radar_bac.Server.{Answer, gives}
use virtual_flight_radar_bac.Vfrb.{Vfrb, message, serve, get_duration}
use virtual_flight_radar_bac.Vfrb.Quiet.{serve-quiet}
use virtual_flight_radar_bac.Tests.Sample.{whole, place, glider, airliner}

-- A file with a port that is too great, a height, and nothing behind the key of the pressure.
abbrev value_at : Str → Option Str
value_at key =
    if str_eq key (codes "general.serverPort")
    then some (codes "70000")
    else if str_eq key (codes "filter.maxHeight")
    then some (codes "3000")
    else if str_eq key (codes "fallback.pressure")
    then some []
    else none

abbrev file_tree : PropertyTree ℕ
file_tree = record {
  get = λ t key. value_at key;
  get_child = λ t name. none;
  read_ini = λ text. some 0;
}

-- A reader of these numbers.
abbrev reader : Reader ℤ
reader = record {
  read_double = λ s. some (pos 0);
  read_int32 = λ s. if str_eq s (codes "-1") then some (negsuc 0) else some (pos 3000);
  read_uint64 = λ s. some 70000;
}

read_configuration-IsResolved_example :
    (read_configuration file_tree reader [] ≡ none)
      × ((file_tree.read_ini [] ≡ none)
          ⊎ (t : ℕ) × (file_tree.read_ini [] ≡ some t) × IsUnreadable file_tree reader t)
    ⊎ (t : ℕ) × (c : Configuration ℤ ℕ) × (file_tree.read_ini [] ≡ some t)
      × (read_configuration file_tree reader [] ≡ some c)
      × IsResolved file_tree reader t c
read_configuration-IsResolved_example =
    read_configuration-IsResolved file_tree reader [] (λ s z e. ground (arith, e))

wind-IsItem : IsItem (codes "wind")
wind-IsItem = record { one = ground arith; full = refl; starts = refl; ends = refl }

sbs-IsItem : IsItem (codes "sbs 1")
sbs-IsItem = record { one = ground arith; full = refl; starts = refl; ends = refl }

split_comma_separated-join_example :
    split_comma_separated (codes "wind, sbs 1  ") ≡ codes "wind" ∷ codes "sbs 1" ∷ []
split_comma_separated-join_example =
    split_comma_separated-join ((0, codes "wind", 0) ∷ (1, codes "sbs 1", 2) ∷ [])
      (wind-IsItem, (sbs-IsItem, tt))

abbrev endpoint : Endpoint
endpoint = record { host = codes "localhost"; port = codes "30003" }

-- A feed of an SBS receiver and one of an APRS server, at one endpoint.
abbrev info : Bool → FeedInfo
info true = record { protocol = sbs; endpoint = endpoint; login = [] }
info false = record { protocol = aprs; endpoint = endpoint; login = codes "user n0call" }

abbrev sum : Str → ℕ
sum [] = 0
sum (c ∷ s) = c + sum s

-- The bits of a seed among those of a text.
abbrev combine : ℕ → Str → ℕ
combine seed s = bit_xor seed ((sum s + 0x9e3779b9 + seed * 64 + seed / 4) % 0x10000000000000000)

abbrev key : Key
key = record { endpoint = endpoint; login = none }

abbrev pub utc : Tm
utc = record { tm_hour = 12; tm_min = 0; tm_sec = 0; tm_mday = 1; tm_mon = 0; tm_year = 118 }

abbrev fresh : Object
fresh = record { last_priority = 0; update_age = 0; serialized = [] }

abbrev program : Vfrb ℤ ℕ
program = record {
  aircraft_data = record {
    processor = record {
      max_distance = pos 10000;
      ref_position = place;
      ref_atm_pressure = pos 1013;
    };
    container = glider ∷ airliner ∷ [];
    index = [];
  };
  atmosphere_data = record { atmosphere = record { base = fresh; pressure = pos 1013 } };
  gps_data = record {
    position = record {
      base = fresh;
      position = place;
      geoid = pos 48;
      time_stamp = record { value = pos 0; day = 0 };
      dilution = pos 1;
      nr_of_satellites = 8;
      fix_quality = pos 1;
    };
    position_locked = false;
    ground_mode = false;
  };
  wind_data = record { wind = record { base = record fresh { serialized = codes "$WIMWV" } } };
  server = record { connections = none ∷ none ∷ none ∷ []; active = 0; running = true };
}

abbrev accepts_all : ℕ → Str → Answer Bool
accepts_all socket text = gives true

serve-quiet_example :
    let v = serve accepts_all (utc ∷ utc ∷ utc ∷ []) program in
    (message utc v).1
    ≡ (GpsData.get_serialized utc v.gps_data []).1 ++ v.atmosphere_data.atmosphere.serialized
serve-quiet_example =
    serve-quiet accepts_all (utc ∷ utc ∷ utc ∷ []) utc program
      ((omega arith, omega arith), ((omega arith, omega arith), tt)) (omega arith)

-- A section that answers the path itself to each question.
abbrev echo : Lookup
echo path default = path

create_feeds-HasUsable_example :
    All HasUsable (create_feeds 0 ((codes "sbs1", echo) ∷ (codes "radar", echo) ∷ []))
create_feeds-HasUsable_example =
    create_feeds-HasUsable 0 ((codes "sbs1", echo) ∷ (codes "radar", echo) ∷ []) (omega arith)

-- The hours are those of the whole run.
a_day_and_an_hour : get_duration 1500 ≡ codes "1 days, 25 hours, 0 minutes"
unfolding get_duration show_nat
a_day_and_an_hour = refl
