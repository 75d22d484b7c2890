-- ===== src/Tests/Course.antt =====
-- The program from its start to its end.
use virtual_flight_radar_bac.Common.{
  ℕ, suc, ◌≡◌, refl, Bool, true, false, not, some, [], ◌∷◌, All, List,
}
use virtual_flight_radar_bac.Common.Int.{ℤ, pos}
use virtual_flight_radar_bac.Common.Text.{Str, codes}
use virtual_flight_radar_bac.Client.{success}
use virtual_flight_radar_bac.Client.Connector.Joint.{completes}
use virtual_flight_radar_bac.Client.Connector.Joint
use virtual_flight_radar_bac.Client.Manager.{FeedInfo, subscribe_all}
use virtual_flight_radar_bac.Client.Manager.Threads
use virtual_flight_radar_bac.Client.Manager.Threads.{begins, meets, threads_of}
use virtual_flight_radar_bac.Client.Manager.Threads.Join.{HasBegun}
use virtual_flight_radar_bac.Data.AircraftData.Runs.{IsSound}
use virtual_flight_radar_bac.Feed.Feeds.{sbs}
use virtual_flight_radar_bac.Feed.Factory.{sbs_feed}
use virtual_flight_radar_bac.Server.Interface
use virtual_flight_radar_bac.Server.Interface.{Socket}
use virtual_flight_radar_bac.Server.Net
use virtual_flight_radar_bac.Signals.{sigterm}
use virtual_flight_radar_bac.Vfrb.{of_configuration}
use virtual_flight_radar_bac.Vfrb.Program.{
  AnyFeed, Happening, Program, in_fleet, accepts, handles, arrives, round, ticks, raises, catches,
  run_all, start, finish,
}
use virtual_flight_radar_bac.Vfrb.Program.Well.{IsPossible}
use virtual_flight_radar_bac.Vfrb.Program.End.{threads_after, HasEnded, finish-run_all}
use virtual_flight_radar_bac.Vfrb.Program.Loop.{ends, running-run_all}
use virtual_flight_radar_bac.Vfrb.Program.Always.{IsInOrder, run_all-IsInOrder}
use virtual_flight_radar_bac.Vfrb.System.Fit.{IsLow}
use virtual_flight_radar_bac.Tests.Sample.{whole}
use virtual_flight_radar_bac.Tests.Feeds.{message, expressions}
use virtual_flight_radar_bac.Tests.Program.{utc}
use virtual_flight_radar_bac.Tests.Whole.{configuration, receiver, moment}

abbrev pub counting : ℕ → Str → ℕ
counting seed s = suc seed

abbrev pub described : AnyFeed → FeedInfo
described f = record {
  protocol = sbs;
  endpoint = record { host = codes "localhost"; port = codes "30003" };
  login = [];
}

abbrev takes_all : Socket → Str → Bool
takes_all socket text = true

-- A receiver connects and delivers a message, a client comes, and a signal ends it all.
abbrev pub course : List (Happening ℤ)
course =
    in_fleet (begins 0 0)
    ∷ in_fleet (meets 0 (completes 1 0 success))
    ∷ in_fleet (meets 0 (completes 1 0 success))
    ∷ in_fleet (meets 0 (Joint.arrives message))
    ∷ in_fleet (meets 0 (completes 2 0 success))
    ∷ accepts
    ∷ arrives (some (codes "192.168.0.2"))
    ∷ handles
    ∷ round takes_all utc
    ∷ ticks moment
    ∷ raises sigterm
    ∷ catches
    ∷ []

abbrev started : Program ℤ
started =
    start expressions (pos 5000) counting described ((sbs_feed, receiver) ∷ []) moment
      (of_configuration utc configuration)

course-IsPossible : All (IsPossible expressions (pos 5000)) course
course-IsPossible = (tt, (tt, (tt, (tt, (tt, (tt, (tt, (tt, (tt, (tt, (tt, (tt, tt))))))))))))

have_begun : All HasBegun (threads_after (run_all expressions (pos 5000) course started))
unfolding run_all start threads_of subscribe_all Threads.step Net.step Interface.initial
have_begun = (refl, tt)

finish-run_all_example :
    (p : Program ℤ) × (run_all expressions (pos 5000) course started ≡ some p)
    × HasEnded (finish expressions (pos 5000) 9 p)
    × IsSound (finish expressions (pos 5000) 9 p).fleet.world.vfrb.aircraft_data
    × All
        (IsLow (pos 5000))
        (finish expressions (pos 5000) 9 p).fleet.world.vfrb.aircraft_data.container
finish-run_all_example =
    finish-run_all expressions utc configuration counting described ((sbs_feed, receiver) ∷ [])
      moment course 9 course-IsPossible have_begun

running-run_all_example :
    (p : Program ℤ) × (run_all expressions (pos 5000) course started ≡ some p)
    × (p.running ≡ not (ends false course))
running-run_all_example =
    running-run_all expressions utc configuration counting described ((sbs_feed, receiver) ∷ [])
      moment course course-IsPossible

run_all-IsInOrder_example :
    (p : Program ℤ) × (run_all expressions (pos 5000) course started ≡ some p)
    × IsInOrder (pos 5000) p
run_all-IsInOrder_example =
    run_all-IsInOrder expressions utc configuration counting described ((sbs_feed, receiver) ∷ [])
      moment course course-IsPossible
