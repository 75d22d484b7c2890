-- ===== src/Tests/Threads.antt =====
-- The threads of the client manager.
use virtual_flight_radar_bac.Common.{ℕ, suc, refl, Bool, true, List, [], ◌∷◌, All}
use virtual_flight_radar_bac.Common.Text.{Str, codes}
use virtual_flight_radar_bac.Client.{sbs, success}
use virtual_flight_radar_bac.Client.Connector.Joint.{completes, arrives}
use virtual_flight_radar_bac.Client.Manager.{Member}
use virtual_flight_radar_bac.Client.Manager.Threads.{
  Fleet, Event, begins, meets, threads_of, run_all, stop,
}
use virtual_flight_radar_bac.Client.Manager.Threads.Join.{HasBegun, IsErased, stop-join_all}

abbrev counted : Bool → Str → ℕ → ℕ × Bool
counted goes_on response n = (suc n, goes_on)

abbrev members : List (Member Bool)
members =
    record {
      kind = sbs;
      endpoint = record { host = codes "localhost"; port = codes "30003" };
      feeds = true ∷ [];
    }
    ∷ []

-- The thread begins, the host is found, the connection is made and a line is read.
abbrev meetings : List Event
meetings =
    begins 1 0
    ∷ meets 0 (completes 2 0 success)
    ∷ meets 0 (completes 3 0 success)
    ∷ meets 0 (arrives (codes "MSG\r\n"))
    ∷ meets 0 (completes 4 0 success)
    ∷ []

abbrev managed : Fleet Bool ℕ
managed = run_all counted meetings (record { world = 0; threads = threads_of members })

have_begun : All HasBegun managed.threads
unfolding run_all threads_of
have_begun = (refl, tt)

stop-join_all_example : All IsErased (stop counted 9 managed).threads
stop-join_all_example = stop-join_all counted 9 0 members meetings have_begun
