-- ===== src/TimeStamp/DateTime/Window.antt =====
-- Which moment a time stamp stands for.
use virtual_flight_radar_bac.Common.{
  ℕ, ◌+◌, ◌-◌, ◌*◌, ◌≤◌, ◌<◌, ◌≡◌, refl, ◌∙◌, some, arith, ltb, if◌then◌else◌,
}
use virtual_flight_radar_bac.Common.Int.{pos, pos_part}
use virtual_flight_radar_bac.TimeStamp.{TimeStamp, hhmmss, make}
use virtual_flight_radar_bac.TimeStamp.Parse.{time_text, make-time_text, millis_of}
use virtual_flight_radar_bac.TimeStamp.DateTime.{UniversalTime, now, day, read_clock}

-- What Boost promises of a time after 17 November 1858: the date has a number that is at most that of
-- the year 9999, and a day has 86400000 milliseconds.
pub record IsModern (t : UniversalTime) : Type 0 where
  pub days : ℕ
  pub millis : ℕ
  pub date : t.modjulian_day ≡ pos days
  pub time : t.total_milliseconds ≡ pos millis
  pub first : 0 < days
  pub last : days < 3000000
  pub within : millis < 86400000

-- Milliseconds since the first of these days.
abbrev pub moment_of : TimeStamp → ℕ
moment_of t = t.day * 86400000 + pos_part t.value

read_clock-IsModern :
    (first second : UniversalTime) (f : IsModern first) (g : IsModern second)
    → ((read_clock first second).day ≡ f.days) × ((read_clock first second).now ≡ pos g.millis)
unfolding read_clock day now
read_clock-IsModern first second f g = (rw f.date (omega (arith, f.last)), g.time)

-- The stamp that the constructor makes of a time of the day.
abbrev stamp_of : ℕ → ℕ → ℕ → TimeStamp
stamp_of days value millis = record {
  value = pos value;
  day = if ltb value millis then days else days - 1;
}

make-stamp_of :
    (first second : UniversalTime) (f : IsModern first) (g : IsModern second) (h m s : ℕ)
    → h < 24
    → m < 60
    → s < 60
    → make (read_clock first second) (time_text h m s) hhmmss
      ≡ some (stamp_of f.days (millis_of h m s) g.millis)
make-stamp_of first second f g h m s ph pm ps =
    let (days, millis) = read_clock-IsModern first second f g in
    make-time_text (read_clock first second) h m s (omega arith) (omega arith) (omega arith)
    ∙ rw (days, millis) (ground (arith, f.last, f.first))

-- Where no midnight passes between the two readings of the clock, the stamp of six digits that are a
-- time of a day stands for the last moment before the clock's that has this time of day: it is
-- earlier than the clock, by a day at most.
pub make-window :
    (first second : UniversalTime) (f : IsModern first) (g : IsModern second) (h m s : ℕ)
    → f.days ≡ g.days
    → h < 24
    → m < 60
    → s < 60
    → (t : TimeStamp) × (make (read_clock first second) (time_text h m s) hhmmss ≡ some t)
      × (t.value ≡ pos (millis_of h m s))
      × (moment_of t < g.days * 86400000 + g.millis)
      × (g.days * 86400000 + g.millis ≤ moment_of t + 86400000)
make-window first second f g h m s same ph pm ps = (
  stamp_of f.days (millis_of h m s) g.millis,
  make-stamp_of first second f g h m s ph pm ps,
  refl,
  ground (arith, same, f.first, g.within),
  ground (arith, same, f.first, g.within),
)
