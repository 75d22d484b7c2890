-- ===== src/Tests/Sentences.antt =====
-- The sentences of the processor.
use mathlib.Core.Path.{subst}
use mathlib.Core.Option.{none, some_inj}
use virtual_flight_radar_bac.Common.{ℕ, List, ◌∷◌, ◌++◌, ap, All, refl, ◌≡◌, some, [], arith}
use virtual_flight_radar_bac.Common.Int.{ℤ, pos, wrap32}
use virtual_flight_radar_bac.Common.Text.{Str, codes, find_char, substr, stoi}
use virtual_flight_radar_bac.Math.{double_to_int}
use virtual_flight_radar_bac.TimeStamp
use virtual_flight_radar_bac.Feed.Feeds.{process_sbs}
use virtual_flight_radar_bac.Feed.Parser.SbsParser
use virtual_flight_radar_bac.Vfrb.System.{process}
use virtual_flight_radar_bac.Common.Print.{show_int}
use virtual_flight_radar_bac.Common.Print.Digits.{IsPlain, weaken-IsPlain, show_int-IsPlain}
use virtual_flight_radar_bac.Double.{Double}
use virtual_flight_radar_bac.Data.Processor.Body.{wrap32-IsInt32}
use virtual_flight_radar_bac.Data.Processor.Wellformed.{IsPrintable}
use virtual_flight_radar_bac.Data.Processor.Body.{are_ascii-All}
use virtual_flight_radar_bac.Feed.Parser.Nmea.Guarded.{AreGuarded}
use virtual_flight_radar_bac.Feed.Parser.Regex.{Regexes}
use virtual_flight_radar_bac.Feed.Parser.Ids.{IsCutting}
use virtual_flight_radar_bac.Feed.Factory.{sbs_feed}
use virtual_flight_radar_bac.Vfrb
use virtual_flight_radar_bac.Vfrb.{of_configuration}
use virtual_flight_radar_bac.Client
use virtual_flight_radar_bac.Client.Machine
use virtual_flight_radar_bac.Client.Connector
use virtual_flight_radar_bac.Client.Connector.{getline}
use virtual_flight_radar_bac.Client.Connector.Joint
use virtual_flight_radar_bac.Client.Manager.{create_client_for, subscribe_all}
use virtual_flight_radar_bac.Client.Manager.Threads
use virtual_flight_radar_bac.Client.Manager.Threads.{threads_of}
use virtual_flight_radar_bac.Data.Processor.GpsProcessor.Fixes.{IsCalendar}
use virtual_flight_radar_bac.Server.Interface
use virtual_flight_radar_bac.Server.Net
use virtual_flight_radar_bac.Vfrb.Program.{AnyFeed, Program, step, run_all, start}
use virtual_flight_radar_bac.Vfrb.Program.Well.{IsPossible}
use virtual_flight_radar_bac.Vfrb.Program.Texts.{AreDelivering, message-run_all}
use virtual_flight_radar_bac.Tests.Course.{counting, described, course}
use virtual_flight_radar_bac.Tests.Feeds.{message}
use virtual_flight_radar_bac.Tests.Program.{utc}
use virtual_flight_radar_bac.Tests.Whole.{configuration, receiver, moment}
use virtual_flight_radar_bac.Tests.Sample.{whole}

-- Whole numbers whose conversion is that of 32 bits.
abbrev narrow : Double ℤ
narrow = record whole {
  truncate = wrap32;
  blank_padded = λ w p a. show_int 3 (wrap32 a);
  zero_padded = λ w p a. show_int 3 (wrap32 a);
}

narrow-plain : (x : ℤ) → IsPlain 400 (show_int 3 (wrap32 x))
narrow-plain x =
    weaken-IsPlain 14 400 (show_int 3 (wrap32 x)) (omega arith)
      (show_int-IsPlain 3 (wrap32 x) (omega arith) (wrap32-IsInt32 x))

narrow-IsPrintable : IsPrintable ℤ ⦃d = narrow⦄
narrow-IsPrintable = record {
  truncates = wrap32-IsInt32;
  blanks = λ w p x p_w p_p. narrow-plain x;
  zeros = λ w p x p_w p_p. narrow-plain x;
}

-- Every group of a match is all of the text.
abbrev whole_text : Regexes
whole_text = record { aprs = λ s. some (λ k. s); aprs_ext = λ s. some (λ k. s); gpgga = λ s. none }

same_group :
    (n k : ℕ) (s : Str) (m : ℕ → Str) → some (λ (k : ℕ). s) ≡ some m → IsPlain n s → IsPlain n (m k)
same_group n k s m e p = subst (IsPlain n) (ap (λ (f : ℕ → Str). f k) (some_inj.0 e)) p

whole_text-IsCutting : IsCutting whole_text
whole_text-IsCutting = record { aprs = same_group; aprs_ext = same_group }

abbrev receives : List AnyFeed
receives = (sbs_feed, receiver) ∷ []

abbrev begun : Program ℤ
begun =
    start ⦃d = narrow⦄ whole_text (pos 5000) counting described receives moment
      (of_configuration ⦃d = narrow⦄ utc configuration)

line_break : IsPlain 1000 (codes "\n")
line_break = record { ascii = are_ascii-All (codes "\n") refl; short = omega arith }

delivered : IsPlain 1000 (message ++ codes "\n")
delivered = record { ascii = are_ascii-All (message ++ codes "\n") refl; short = omega arith }

course-IsDelivering : AreDelivering ⦃d = narrow⦄ whole_text (pos 5000) course (some begun)
unfolding start threads_of subscribe_all step Threads.step Net.step Interface.initial Joint.start
    Joint.next getline Connector.initial Connector.perform_all Connector.complete Machine.step
    Client.run Client.handle_connect create_client_for Client.handle_read process process_sbs
    SbsParser.unpack SbsParser.is_position_message find_char SbsParser.fields TimeStamp.make
    TimeStamp.parts substr stoi SbsParser.finish double_to_int
course-IsDelivering = (
  (line_break, tt),
  (
    (line_break, tt),
    (
      (line_break, tt),
      (
        (line_break, tt),
        (
          (delivered, tt),
          (
            (line_break, tt),
            (
              (line_break, tt),
              (
                (line_break, tt),
                ((line_break, tt), ((line_break, tt), ((line_break, tt), ((line_break, tt), tt)))),
              ),
            ),
          ),
        ),
      ),
    ),
  ),
)

course-IsPossible : All (IsPossible ⦃d = narrow⦄ whole_text (pos 5000)) course
course-IsPossible = (tt, (tt, (tt, (tt, (tt, (tt, (tt, (tt, (tt, (tt, (tt, (tt, tt))))))))))))

calendar : IsCalendar utc
calendar = record {
  hour = omega arith;
  minute = omega arith;
  second = omega arith;
  day = omega arith;
  month = omega arith;
  year = omega arith;
}

message-run_all_example :
    (p : Program ℤ) × (run_all ⦃d = narrow⦄ whole_text (pos 5000) course begun ≡ some p)
    × AreGuarded (Vfrb.message ⦃d = narrow⦄ utc p.fleet.world.vfrb).1
message-run_all_example =
    message-run_all ⦃d = narrow⦄ whole_text utc utc configuration counting described receives moment
      course whole_text-IsCutting narrow-IsPrintable (omega arith) calendar course-IsPossible
      course-IsDelivering
