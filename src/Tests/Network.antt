-- ===== src/Tests/Network.antt =====
-- The server and the clients.
use virtual_flight_radar_bac.Common.{ℕ, suc, ◌≡◌, refl, Bool, true, false, none, some, [], ◌∷◌, map}
use virtual_flight_radar_bac.Common.Text.{Str, codes}
use virtual_flight_radar_bac.Server.{
  Answer, gives, Connection, Server, accept_next, is_connected, attempt_connection, send,
}
use virtual_flight_radar_bac.Server.Slots.{after_write}
use virtual_flight_radar_bac.Server.Invariant.{IsValid}
use virtual_flight_radar_bac.Server.Accept.{attempt_connection-outcome, send-connections}
use virtual_flight_radar_bac.Client
use virtual_flight_radar_bac.Client.{idle, connecting, running, stopping, sbs, success, failure}
use virtual_flight_radar_bac.Client.Machine
use virtual_flight_radar_bac.Client.Machine.{Edge, step, step-Edge}
use virtual_flight_radar_bac.Client.Stopping.{step-stopping}

abbrev here_address : Str
here_address = codes "192.168.0.2"

abbrev there_address : Str
there_address = codes "192.168.0.3"

abbrev connection : Str → Connection ℕ
connection address = record { socket = 7; address = address }

abbrev one_client : Server ℕ
one_client = record {
  connections = none ∷ some (connection here_address) ∷ none ∷ [];
  active = 1;
  running = true;
}

one_client-IsValid : IsValid one_client
unfolding is_connected
one_client-IsValid = record { counted = refl; sized = refl; distinct = (refl, tt) }

attempt_connection-outcome_example :
    let (s, effects) =
      attempt_connection false
        (gives there_address)
        (gives (connection there_address))
        one_client in
    (is_connected s.connections here_address ≡ true) × (s.active ≡ 2) × (effects ≡ accept_next ∷ [])
unfolding is_connected
attempt_connection-outcome_example =
    attempt_connection-outcome one_client there_address here_address (connection there_address)
      one_client-IsValid refl

abbrev refuses : ℕ → Str → Answer Bool
refuses socket msg = gives false

send-connections_example :
    (send refuses (codes "$") one_client).connections
    ≡ map (after_write refuses (codes "$")) one_client.connections
send-connections_example = send-connections refuses (codes "$") one_client one_client-IsValid

-- Two feeds that count what they are given; the second one ends its client.
abbrev counts : Bool → Str → ℕ → ℕ × Bool
counts goes_on response n = (suc n, goes_on)

abbrev running_sbs : Client.Client
running_sbs = record { kind = sbs; state = running }

step-stopping_example :
    step counts
      (true ∷ [])
      (Machine.reads success (codes "MSG"))
      0
      (record { kind = sbs; state = stopping })
    ≡ (0, (record { kind = sbs; state = stopping }, []))
step-stopping_example =
    step-stopping counts (true ∷ []) (Machine.reads success (codes "MSG")) 0
      (record { kind = sbs; state = stopping }) (λ e. cc) (λ e. cc) refl
