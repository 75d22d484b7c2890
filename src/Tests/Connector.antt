-- ===== src/Tests/Connector.antt =====
-- The connector of a client.
use mathlib.Core.List.{flatten}
use virtual_flight_radar_bac.Common.{ℕ, suc, ◌≡◌, refl, Bool, true, false, List, [], ◌∷◌, ◌++◌}
use virtual_flight_radar_bac.Common.Text.{Str, codes, contains}
use virtual_flight_radar_bac.Client.{sbs, success, failure, stopping, is_idle}
use virtual_flight_radar_bac.Client.Connector
use virtual_flight_radar_bac.Client.Connector.{Connector, has_line}
use virtual_flight_radar_bac.Client.Connector.Stream.{
  receive_all, receive_all-chunks, receive_all-flatten,
}
use virtual_flight_radar_bac.Client.Connector.Joint.{
  Stimulus, completes, arrives, is_stopped, next, start, run_all,
}
use virtual_flight_radar_bac.Client.Connector.Joint.Summary.{summary_of}
use virtual_flight_radar_bac.Client.Connector.Joint.Ends.{run_all-stops}
use virtual_flight_radar_bac.Client.Connector.Joint.Reach.{Waits, run_all-Waits}

abbrev two_chunks : List Str
two_chunks = codes "$A\r" ∷ codes "\n$B\r\n$" ∷ []

abbrev one_chunk : List Str
one_chunk = codes "$A\r\n$B\r\n$" ∷ []

no_line : has_line Connector.initial.buffer ≡ false
unfolding has_line Connector.initial contains
no_line = refl

receive_all-chunks_example :
    ((receive_all two_chunks Connector.initial).1 ≡ (receive_all one_chunk Connector.initial).1)
    × ((receive_all two_chunks Connector.initial).0.buffer
        ≡ (receive_all one_chunk Connector.initial).0.buffer)
unfolding flatten
receive_all-chunks_example = receive_all-chunks two_chunks one_chunk Connector.initial no_line refl

receive_all-flatten_example :
    (has_line (receive_all two_chunks Connector.initial).0.buffer ≡ false)
    × (flatten (receive_all two_chunks Connector.initial).1
          ++ (receive_all two_chunks Connector.initial).0.buffer
        ≡ Connector.initial.buffer ++ flatten two_chunks)
receive_all-flatten_example = receive_all-flatten two_chunks Connector.initial no_line

abbrev counted : Bool → Str → ℕ → ℕ × Bool
counted goes_on response n = (suc n, goes_on)

-- A client that connects, reads a line, loses its connection and waits to connect again.
abbrev a_day : List Stimulus
a_day =
    completes 0 0 success
    ∷ completes 1 0 success
    ∷ arrives (codes "MSG\r\n")
    ∷ completes 2 0 success
    ∷ completes 3 0 failure
    ∷ []

run_all-Waits_example :
    let j =
      run_all counted
        (codes "host")
        (codes "30003")
        (true ∷ [])
        a_day
        (start counted (codes "host") (codes "30003") 0 (true ∷ []) sbs 0) in
    Waits j.client.state (summary_of j.connector)
run_all-Waits_example =
    run_all-Waits counted (codes "host") (codes "30003") 0 (true ∷ []) sbs 0 a_day

run_all-stops_example :
    let j =
      run_all counted
        (codes "host")
        (codes "30003")
        (true ∷ [])
        a_day
        (start counted (codes "host") (codes "30003") 0 (true ∷ []) sbs 0) in
    let j' = next counted (codes "host") (codes "30003") (true ∷ []) (is_stopped 7) j in
    (is_idle j.client.state ≡ false) × (j'.client.state ≡ stopping) × (j'.connector.stopped ≡ true)
run_all-stops_example =
    run_all-stops counted (codes "host") (codes "30003") 0 7 (true ∷ []) sbs 0 a_day
