-- ===== src/Server/Interface.antt =====
-- src/server/net/impl/NetworkInterfaceImplBoost.cpp and SocketImplBoost.cpp: what the server accepts
-- its clients with, over Boost.Asio. An accept stays with the event queue until the network completes
-- it. Boost.Asio fails an accept into a socket that is open already.
use virtual_flight_radar_bac.Common.{
  ℕ, zero, suc, ◌&&◌, Bool, true, false, not, Option, none, some, List, [], ◌∷◌, ◌++◌,
  if◌then◌else◌,
}
use virtual_flight_radar_bac.Common.Text.{Str}
use virtual_flight_radar_bac.Server.{
  Connection, Answer, gives, fails, Effect, close_current, stop_interface, accept_next,
}

-- `peer` is what `remote_endpoint` gives: nothing where the other side is gone.
pub record Socket : Type 0 where
  pub is_open : Bool
  pub peer : Option Str

-- `throws` is a SocketException; `escapes` is the exception of Boost.Asio, which nothing catches.
pub data Outcome (A : Type 0) : Type 0 where
  returns : A → Outcome A
  throws escapes : Outcome A

-- `accepts` counts the accepts that are not done; `done` has the error flags of those that are, whose
-- handlers have not had the mutex yet.
pub record Interface : Type 0 where
  pub is_accepting : Bool
  pub is_stopped : Bool
  pub socket : Socket
  pub accepts : ℕ
  pub done : List Bool

-- A new socket, and one that was moved from.
abbrev pub no_socket : Socket
no_socket = record { is_open = false; peer = none }

unfoldable pub get_address : Socket → Outcome Str
get_address s =
    if s.is_open then elim s.peer [ none ↦ escapes | some address ↦ returns address ] else throws

-- `SocketImplBoost::write`, by whether the network takes a text.
unfoldable pub write : (Socket → Str → Bool) → Socket → Str → Answer Bool
write takes s msg = if s.is_open then gives (takes s msg) else fails

-- `SocketImplBoost::close`.
unfoldable pub close_socket : Socket → Socket
close_socket s = if s.is_open then no_socket else s

-- The constructor of a connection.
unfoldable pub connection_of : Socket → Outcome (Connection Socket)
unfolding get_address
connection_of s = elim (get_address s) [
  | returns address ↦ returns (record { socket = s; address = address })
  | throws ↦ throws
  | escapes ↦ escapes
]

-- The constructor, where the port is free.
unfoldable pub initial : Interface
initial = record {
  is_accepting = true;
  is_stopped = false;
  socket = no_socket;
  accepts = 0;
  done = [];
}

unfoldable pub stop : Interface → Interface
unfolding close_socket
stop i = record i { is_accepting = false; is_stopped = true; socket = close_socket i.socket }

unfoldable pub on_accept : Interface → Interface
on_accept i = if i.is_accepting then record i { accepts = suc i.accepts } else i

unfoldable pub close : Interface → Interface
unfolding close_socket
close i = record i { socket = close_socket i.socket }

unfoldable pub start_connection : Interface → Outcome (Connection Socket) × Interface
unfolding connection_of
start_connection i =
    if i.socket.is_open
    then (connection_of i.socket, record i { socket = no_socket })
    else (throws, i)

unfoldable pub get_current_address : Interface → Outcome Str
unfolding get_address
get_current_address i = get_address i.socket

-- An accept is done: with a client, by what `remote_endpoint` will give for it, or with an error. The
-- handler asks later, and up to twice: what it will find is chosen here, the same each time, so that a
-- client which leaves in between counts as one that is gone from the start.
-- `handleAccept` hands its error flag on.
unfoldable pub accepted : Option Str → Interface → Interface
accepted peer i = elim i.accepts [
  | zero ↦ i
  | suc n ↦
      if i.is_accepting && not i.socket.is_open
      then record i {
        accepts = n;
        socket = record { is_open = true; peer = peer };
        done = i.done ++ false ∷ [];
      }
      else record i { accepts = n; done = i.done ++ true ∷ [] }
]

unfoldable pub rejected : Interface → Interface
rejected i = elim i.accepts [
  | zero ↦ i
  | suc n ↦ record i { accepts = n; done = i.done ++ true ∷ [] }
]

-- The calls of the server.
unfoldable pub perform : Effect → Interface → Interface
unfolding close stop on_accept
perform close_current i = close i
perform stop_interface i = stop i
perform accept_next i = on_accept i

unfoldable pub perform_all : List Effect → Interface → Interface
unfolding perform
perform_all [] i = i
perform_all (e ∷ es) i = perform_all es (perform e i)
