-- ===== src/Tests/Wire.antt =====
-- A line from the wire to the clients of the server.
use virtual_flight_radar_bac.Common.{◌≡◌, refl, true, some, [], ◌∷◌, ◌++◌, arith}
use virtual_flight_radar_bac.Common.Int.{ℤ, pos}
use virtual_flight_radar_bac.Common.Text.{Str, codes, substr, stoi}
use virtual_flight_radar_bac.Math.{double_to_int}
use virtual_flight_radar_bac.TimeStamp.{TimeStamp, make, parts, hh_mm_ss_fff}
use virtual_flight_radar_bac.Object.Position.{Position}
use virtual_flight_radar_bac.Data.AircraftData.{of_max_distance}
use virtual_flight_radar_bac.Data.AircraftData.Index.{find}
use virtual_flight_radar_bac.Data.AircraftData.Places.{IsValid, lookup}
use virtual_flight_radar_bac.Data.AircraftData.Update.{merged, accepted}
use virtual_flight_radar_bac.Client.{sbs, running, success}
use virtual_flight_radar_bac.Client.Connector.{receive, initial, getline}
use virtual_flight_radar_bac.Client.Connector.Joint.{Joint, completes, next}
use virtual_flight_radar_bac.Client.Manager.Threads.Lines.{next_line}
use virtual_flight_radar_bac.Server.Interface.{Socket}
use virtual_flight_radar_bac.Feed.Factory.{sbs_feed}
use virtual_flight_radar_bac.Feed.Parser.SbsParser.Message.{message_of, position_of}
use virtual_flight_radar_bac.Vfrb.{Vfrb, message, of_configuration}
use virtual_flight_radar_bac.Vfrb.Relay.{StandsIn, sentence_of, processor_of}
use virtual_flight_radar_bac.Vfrb.Program.{Site, takes_line}
use virtual_flight_radar_bac.Vfrb.Wire.{reported}
use virtual_flight_radar_bac.Vfrb.Wire.Delivered.{next-message_of}
use virtual_flight_radar_bac.Tests.Sample.{whole}
use virtual_flight_radar_bac.Tests.Feeds.{clock, expressions}
use virtual_flight_radar_bac.Tests.Program.{utc}
use virtual_flight_radar_bac.Tests.Whole.{configuration, receiver, moment}

abbrev of_day : TimeStamp
of_day = record { value = pos 72690772; day = 58000 }

abbrev there : Position ℤ
there = record { latitude = pos 49; longitude = pos 8; altitude = pos 304805 }

reads_time : make clock (codes "20:11:30.772") hh_mm_ss_fff ≡ some of_day
unfolding make parts substr stoi
reads_time = refl

reads_place : position_of (codes "100") (codes "49") (codes "8") ≡ some there
unfolding double_to_int stoi
reads_place = refl

abbrev line : Str
line =
    message_of
      (codes "0"
        ∷ codes "0"
        ∷ codes "AAAAAA"
        ∷ codes "0"
        ∷ codes "2017/02/16"
        ∷ codes "20:11:30.772"
        ∷ codes "2017/02/16"
        ∷ codes "20:11:30.772"
        ∷ []
        ∷ codes "100"
        ∷ []
        ∷ []
        ∷ codes "49"
        ∷ codes "8"
        ∷ [])
      (codes ",,,,,0\r\n")

abbrev empty_program : Vfrb ℤ Socket
empty_program = of_configuration utc configuration

-- The line has arrived, and the start of another one.
abbrev reading : Joint (Site ℤ)
reading = record {
  client = record { kind = sbs; state = running };
  world = record { vfrb = empty_program; moment = moment };
  connector = record initial {
    is_open = true;
    buffer = line ++ codes "MSG,3";
    pending = receive ∷ [];
  };
}

has_arrived : next_line reading.connector ≡ line
unfolding getline initial
has_arrived = refl

empty_program-IsValid : IsValid empty_program.aircraft_data
unfolding of_configuration of_max_distance find
empty_program-IsValid = record { unique = tt; placed = λ k. refl }

is_unknown :
    accepted
      (lookup empty_program.aircraft_data (codes "AAAAAA"))
      (reported receiver (codes "AAAAAA") of_day there)
    ≡ true
unfolding of_configuration of_max_distance lookup find
is_unknown = refl

next-message_of_example :
    StandsIn
      (sentence_of (processor_of empty_program) (
        merged
          (lookup empty_program.aircraft_data (codes "AAAAAA"))
          (reported receiver (codes "AAAAAA") of_day there)))
      (message utc
        (next
          (takes_line expressions (pos 400000))
          (codes "localhost")
          (codes "30003")
          ((sbs_feed, receiver) ∷ [])
          (completes 5 0 success)
          reading).world.vfrb).1
next-message_of_example =
    next-message_of expressions (pos 400000) (codes "localhost") (codes "30003") receiver 5 0
      reading utc (codes "0") (codes "0") (codes "AAAAAA") (codes "0") (codes "2017/02/16")
      (codes "20:11:30.772") (codes "2017/02/16") (codes "20:11:30.772") [] (codes "100") [] []
      (codes "49") (codes "8") (codes ",,,,,0\r\n") of_day there refl refl has_arrived
      (ground arith) reads_time reads_place refl empty_program-IsValid is_unknown
