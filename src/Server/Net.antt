-- ===== src/Server/Net.antt =====
-- The server over its network interface: src/server/net/impl/NetworkInterfaceImplBoost.cpp under
-- include/server/Server.hpp. Each call under the mutex is one step; what the network does to the
-- interface is another. An exception that nothing catches ends the program.
pub mod Sound
pub mod Calls
pub mod Running
mod Attempt
pub mod Reach
use virtual_flight_radar_bac.Common.{
  ℕ, ◌≡◌, Bool, true, false, not, ◌&&◌, Option, none, some, List, [], ◌∷◌, ltb, if◌then◌else◌,
}
use virtual_flight_radar_bac.Common.Text.{Str}
use virtual_flight_radar_bac.Server
use virtual_flight_radar_bac.Server.{
  Answer, gives, fails, Connection, Slots, Server, Effect, max_clients, is_connected,
  attempt_connection, send,
}
use virtual_flight_radar_bac.Server.Interface
use virtual_flight_radar_bac.Server.Interface.{
  Socket, Outcome, returns, throws, escapes, Interface, get_current_address, start_connection,
  on_accept, accepted, rejected, perform_all, write,
}

-- `begun` says whether the thread of the server has called `accept`.
pub record Net : Type 0 where
  pub server : Server Socket
  pub interface : Interface
  pub begun : Bool

-- What can happen, once the server runs: its thread begins, the program stops it or sends a text,
-- an accept is done, and the handler of one gets the mutex.
pub data Event : Type 0 where
  begins stops refuses handles : Event
  sends : (Socket → Str → Bool) → Str → Event
  arrives : Option Str → Event

unfoldable pub has_free : Slots Socket → Bool
has_free [] = false
has_free (none ∷ cs) = true
has_free (some c ∷ cs) = has_free cs

-- Where `attemptConnection` calls `startConnection`.
unfoldable pub is_started : Server Socket → Str → Bool
unfolding has_free is_connected
is_started s address =
    ltb s.active max_clients && not (is_connected s.connections address) && has_free s.connections

-- What a call on the server leaves behind, with its calls on the interface.
abbrev pub settle : Net → Interface → Server Socket × List Effect → Net
settle n i (s, effects) = record n { server = s; interface = perform_all effects i }

-- What follows `get_currentAddress`, by what `startConnection` would give: its exceptions count only
-- where it is called.
abbrev pub attempted : Net → Str → Outcome (Connection Socket) × Interface → Option Net
attempted n address (returns c, i) = some (
    settle n (if is_started n.server address then i else n.interface)
      (attempt_connection false (gives address) (gives c) n.server))
attempted n address (throws, i) = some (
    settle n (if is_started n.server address then i else n.interface)
      (attempt_connection false (gives address) fails n.server))
attempted n address (escapes, i) =
    if is_started n.server address
    then none
    else some (settle n n.interface (attempt_connection false (gives address) fails n.server))

-- `attemptConnection` on the interface. With no error it calls `get_currentAddress` in any case.
unfoldable pub attempt_on : Bool → Net → Option Net
unfolding is_started get_current_address start_connection perform_all
attempt_on true n = some (settle n n.interface (attempt_connection true fails fails n.server))
attempt_on false n = elim (get_current_address n.interface) [
  | escapes ↦ none
  | throws ↦ some (settle n n.interface (attempt_connection false fails fails n.server))
  | returns address ↦ attempted n address (start_connection n.interface)
]

unfoldable pub handle : List Bool → Net → Option Net
unfolding attempt_on
handle [] n = some n
handle (error ∷ rest) n =
    attempt_on error (record n { interface = record n.interface { done = rest } })

unfoldable pub step : Event → Net → Option Net
unfolding handle accepted rejected on_accept perform_all
step begins n =
    some (if n.begun then n else record n { interface = on_accept n.interface; begun = true })
step stops n = some (settle n n.interface (Server.stop n.server))
step refuses n = some (record n { interface = rejected n.interface })
step (arrives peer) n = some (record n { interface = accepted peer n.interface })
step handles n = handle n.interface.done n
step (sends takes msg) n = some (record n { server = send (write takes) msg n.server })

-- A new server on a new interface, once it runs.
unfoldable pub start : Net
unfolding Server.initial Server.run Interface.initial
start = record {
  server = (Server.run Server.initial).0;
  interface = Interface.initial;
  begun = false;
}

unfoldable pub run_all : List Event → Net → Option Net
unfolding step
run_all [] n = some n
run_all (e ∷ es) n = elim (step e n) [ none ↦ none | some n' ↦ run_all es n' ]
