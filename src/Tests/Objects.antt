-- ===== src/Tests/Objects.antt =====
-- Objects and their time stamps.
use virtual_flight_radar_bac.Common.{
  ℕ, ◌+◌, ◌*◌, ◌<◌, ◌≤◌, ◌≡◌, refl, ◌&&◌, if◌then◌else◌, inl, inr, true, false, some, [], ◌∷◌,
  arith,
}
use virtual_flight_radar_bac.Common.Int.{ℤ, pos}
use virtual_flight_radar_bac.Common.Text.{codes}
use virtual_flight_radar_bac.TimeStamp.DateTime.{UniversalTime, read_clock}
use virtual_flight_radar_bac.TimeStamp.DateTime.Window.{IsModern, moment_of, make-window}
use virtual_flight_radar_bac.TimeStamp.{Clock, TimeStamp, newer, make, hhmmss}
use virtual_flight_radar_bac.TimeStamp.Parse.{time_text, make-time_text}
use virtual_flight_radar_bac.Object.GpsPosition
use virtual_flight_radar_bac.Object.GpsPosition.{GpsPosition}
use virtual_flight_radar_bac.Object.Aircraft.{flarm, transponder}
use virtual_flight_radar_bac.Object.Update.{try_all, try_all-newer, try_all-shielded}
use virtual_flight_radar_bac.Data.GpsData.{
  updated, received_good, is_position_good, of_position, update,
}
use virtual_flight_radar_bac.Data.GpsData.Ground.{updates, run, update-run}
use virtual_flight_radar_bac.Data.Processor.GpsProcessor.{Tm}
use virtual_flight_radar_bac.Tests.Sample.{whole, place, reported, glider, airliner}

abbrev clock : Clock
clock = record { day = 58000; now = pos 43200000 }

make-time_text_example :
    make clock (time_text 11 22 33) hhmmss ≡ some (record { value = pos 40953000; day = 58000 })
make-time_text_example = make-time_text clock 11 22 33 (omega arith) (omega arith) (omega arith)

-- Noon of a day of the year 2017.
abbrev midday : UniversalTime
midday = record { total_milliseconds = pos 43200000; modjulian_day = pos 58000 }

midday-IsModern : IsModern midday
midday-IsModern = record {
  days = 58000;
  millis = 43200000;
  date = refl;
  time = refl;
  first = omega arith;
  last = omega arith;
  within = omega arith;
}

make-window_example :
    (t : TimeStamp) × (make (read_clock midday midday) (time_text 11 22 33) hhmmss ≡ some t)
    × (t.value ≡ pos 40953000)
    × (moment_of t < 58000 * 86400000 + 43200000)
    × (58000 * 86400000 + 43200000 ≤ moment_of t + 86400000)
unfolding midday-IsModern
make-window_example =
    make-window midday midday midday-IsModern midday-IsModern 11 22 33 refl (omega arith)
      (omega arith) (omega arith)

try_all-newer_example :
    (newer glider.time_stamp (try_all glider (airliner ∷ [])).time_stamp ≡ false)
    × ((try_all glider (airliner ∷ [])).id ≡ codes "DDA85C")
try_all-newer_example = try_all-newer glider (airliner ∷ [])

try_all-shielded_example :
    try_all glider
      (reported (codes "DDA85C") transponder 9 9000 ∷ reported (codes "DDA85C") flarm 0 9000 ∷ [])
    ≡ glider
try_all-shielded_example =
    try_all-shielded glider
      (reported (codes "DDA85C") transponder 9 9000 ∷ reported (codes "DDA85C") flarm 0 9000 ∷ [])
      refl (omega arith) (inr (inl refl), (inr (inr (omega arith)), tt))

abbrev noon_utc : Tm
noon_utc = record { tm_hour = 12; tm_min = 0; tm_sec = 0; tm_mday = 1; tm_mon = 0; tm_year = 118 }

abbrev fix : ℕ → GpsPosition ℤ
fix time = record {
  base = record { last_priority = 0; update_age = 0; serialized = [] };
  position = place;
  geoid = pos 48;
  time_stamp = record { value = pos time; day = 58000 };
  dilution = pos 1;
  nr_of_satellites = 8;
  fix_quality = pos 1;
}

update-run_example :
    let s = run (of_position noon_utc (fix 1) true) (updates noon_utc (fix 2) ∷ []) in
    (update noon_utc s (fix 3)).1 ≡ (
      let taken = GpsPosition.can_update (fix 3) s.position in
      if true && (taken && is_position_good (fix 3)) then received_good else updated taken)
update-run_example =
    update-run noon_utc noon_utc (fix 1) (fix 3) true (updates noon_utc (fix 2) ∷ [])
