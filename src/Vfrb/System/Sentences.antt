-- ===== src/Vfrb/System/Sentences.antt =====
-- What the clients of the server get: sentences and nothing else.
use virtual_flight_radar_bac.Common.{Bool, List, [], ◌∷◌, All}
use virtual_flight_radar_bac.Common.Int.{ℤ}
use virtual_flight_radar_bac.Common.Text.{Str}
use virtual_flight_radar_bac.Common.Print.Digits.{IsPlain, IsInt32}
use virtual_flight_radar_bac.Double.{Double}
use virtual_flight_radar_bac.Data.Processor.Wellformed.{IsPrintable}
use virtual_flight_radar_bac.Data.Processor.GpsProcessor.{Tm}
use virtual_flight_radar_bac.Data.Processor.GpsProcessor.Fixes.{IsCalendar}
use virtual_flight_radar_bac.Feed.Parser.Nmea.Guarded.{AreGuarded}
use virtual_flight_radar_bac.Feed.Parser.Regex.{Regexes}
use virtual_flight_radar_bac.Feed.Parser.Ids.{IsCutting}
use virtual_flight_radar_bac.Config.{Configuration}
use virtual_flight_radar_bac.Server.{Answer}
use virtual_flight_radar_bac.Vfrb.{Vfrb, of_configuration, serve_round, message}
use virtual_flight_radar_bac.Vfrb.System.{Event, receives, rounds, serves, step, run}
use virtual_flight_radar_bac.Vfrb.System.Clear.{
  IsClear, process-IsClear, message-IsClear, message-AreGuarded, of_configuration-IsClear,
}

module _ {W S : Type 0} ⦃d : Double W⦄ (max_height : ℤ) where
  -- A line has at most 1000 ASCII characters.
  abbrev pub IsRegular : Event W S → Type 0
  IsRegular (receives m c f response) = IsPlain 1000 response
  IsRegular (rounds write utc) = Unit {0}
  IsRegular (serves e) = Unit {0}

  pub round-IsClear :
      (write : S → Str → Answer Bool) (utc : Tm) (v : Vfrb W S)
      → IsPrintable W
      → IsClear max_height v
      → IsClear max_height (serve_round write utc v)
  unfolding serve_round
  round-IsClear write utc v h k =
      let m = message-IsClear max_height utc v h k in
      record { fit = m.fit; voiced = m.voiced; placed = m.placed; air = m.air; wind = m.wind }

  step-IsClear :
      (re : Regexes) (e : Event W S) (v : Vfrb W S)
      → IsCutting re
      → IsPrintable W
      → IsRegular e
      → IsClear max_height v
      → IsClear max_height (step re max_height e v)
  unfolding step
  step-IsClear re (receives m c f response) v cut h p k =
      process-IsClear max_height re m c f response v cut h p k
  step-IsClear re (rounds write utc) v cut h p k = round-IsClear write utc v h k
  step-IsClear re (serves e) v cut h p k = record {
    fit = k.fit;
    voiced = k.voiced;
    placed = k.placed;
    air = k.air;
    wind = k.wind;
  }

  run-IsClear :
      (re : Regexes) (es : List (Event W S)) (v : Vfrb W S)
      → IsCutting re
      → IsPrintable W
      → All IsRegular es
      → IsClear max_height v
      → IsClear max_height (run re max_height es v)
  unfolding run
  run-IsClear re [] v cut h p k = k
  run-IsClear re (e ∷ es) v cut h p k =
      run-IsClear re es (step re max_height e v) cut h p.1 (step-IsClear re e v cut h p.0 k)

module _ {W S P : Type 0} ⦃d : Double W⦄ where
  -- Whatever lines of at most 1000 ASCII characters the feeds of the program receive, in whatever
  -- order with its rounds and with what happens to its server, the text of the next round is a
  -- sequence of sentences each of which passes the guard of the NMEA parsers. The configured
  -- altitude is to be an `int32_t`, the calendar time what `std::gmtime` gives, a group of a match a
  -- part of the text, and the conversions of `double`s as C++ promises them.
  pub message-run :
      (re : Regexes) (start utc : Tm) (c : Configuration W P) (es : List (Event W S))
      → IsCutting re
      → IsPrintable W
      → IsInt32 c.position.position.altitude
      → IsCalendar utc
      → All (IsRegular c.max_height) es
      → AreGuarded (message utc (run re c.max_height es (of_configuration start c))).1
  message-run re start utc c es cut h i t p =
      message-AreGuarded c.max_height utc _ h t
        (run-IsClear c.max_height re es _ cut h p (of_configuration-IsClear start c i))
