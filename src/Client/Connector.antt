-- ===== src/Client/Connector.antt =====
-- src/client/net/impl/ConnectorImplBoost.cpp: the connector of a client over Boost.Asio. An
-- asynchronous call leaves an operation with the event queue; what comes of it is chosen by the
-- network and enters as the error code that its handler is called with. Boost.Asio completes a wait
-- with an error when its timer is set anew or cancelled, and what goes over a socket when that is
-- closed. `handleConnect` also sets an option of the socket, which throws where that has been closed
-- meanwhile: this end of the program is left out.
mod Split
pub mod Stream
pub mod Joint
use virtual_flight_radar_bac.Common.{
  ℕ, ◌+◌, ◌≡◌, refl, Bool, true, false, Option, none, some, List, [], ◌∷◌, ◌++◌, leb, ◌==◌,
  if◌then◌else◌,
}
use virtual_flight_radar_bac.Common.Text.{Str, codes, contains}
use virtual_flight_radar_bac.Client.{
  ErrorCode, success, failure, Callback, Action, connect, close, stop_connector, read, write,
  timeout, reset_timer, on_connect,
}

pub data Operation : Type 0 where
  resolve : Str → Str → Callback → Operation
  establish : Callback → Operation
  transmit : Str → Callback → Operation
  wait : Callback → Operation
  receive : Operation

-- The socket is `open` or not; `expiry` is when the timer expires, if ever.
pub record Connector : Type 0 where
  pub is_open : Bool
  pub buffer : Str
  pub response : Str
  pub expiry : Option ℕ
  pub stopped : Bool
  pub pending : List Operation

-- What a handler of the connector calls: a callback of the client.
pub data Call : Type 0 where
  call : Callback → ErrorCode → Call
  call_read : ErrorCode → Str → Call

-- The constructor.
unfoldable pub initial : Connector
initial = record {
  is_open = false;
  buffer = [];
  response = [];
  expiry = none;
  stopped = false;
  pending = [];
}

abbrev pub enqueue : Operation → Connector → Connector
enqueue o c = record c { pending = c.pending ++ o ∷ [] }

-- `close`. The buffer stays as it is.
unfoldable pub close_socket : Connector → Connector
close_socket c = record c { is_open = false; expiry = none }

unfoldable pub stop : Connector → Connector
unfolding close_socket
stop c = record (close_socket c) { stopped = true }

unfoldable pub connect_to : Str → Str → Callback → Connector → Connector
connect_to host port callback c = enqueue (resolve host port callback) c

unfoldable pub on_read : Connector → Connector
on_read c = if c.is_open then enqueue receive c else c

unfoldable pub on_write : Str → Callback → Connector → Connector
on_write message callback c = if c.is_open then enqueue (transmit message callback) c else c

-- `resetTimer`, by what the clock shows.
unfoldable pub set_timer : ℕ → ℕ → Connector → Connector
set_timer now seconds c = record c { expiry = some (now + seconds) }

unfoldable pub on_timeout : ℕ → Callback → ℕ → Connector → Connector
unfolding set_timer
on_timeout now callback seconds c =
    enqueue (wait callback) (if seconds == 0 then c else set_timer now seconds c)

-- `timerExpired`.
unfoldable pub is_timer_expired : ℕ → Connector → Bool
is_timer_expired now c = elim c.expiry [ none ↦ false | some t ↦ leb t now ]

-- `std::getline` on the buffer: a line without its LF, and what stands behind that.
unfoldable pub getline : Str → Str × Str
getline [] = ([], [])
getline (c ∷ s) = let (line, rest) = getline s in if c == b'\n' then ([], s) else (c ∷ line, rest)

-- `async_read_until` is done where the buffer has CR LF.
unfoldable pub has_line : Str → Bool
has_line s = contains (codes "\r\n") s

-- `handleRead`.
unfoldable pub handle_received : ErrorCode → Connector → Connector × Call
unfolding getline
handle_received success c =
    let (line, rest) = getline c.buffer in
    let response = line ++ b'\n' ∷ [] in
    (record c { buffer = rest; response = response }, call_read success response)
handle_received failure c = (c, call_read failure c.response)

-- `handleResolve`.
unfoldable pub handle_resolved : ErrorCode → Callback → Connector → Connector × List Call
handle_resolved success callback c = (enqueue (establish callback) c, [])
handle_resolved failure callback c = (c, call callback failure ∷ [])

-- The handler that an operation is completed with. A successful `async_connect` has opened the
-- socket.
unfoldable pub complete : Operation → ErrorCode → Connector → Connector × List Call
unfolding handle_received handle_resolved
complete (resolve host port callback) e c = handle_resolved e callback c
complete (establish callback) success c = (record c { is_open = true }, call callback success ∷ [])
complete (establish callback) failure c = (c, call callback failure ∷ [])
complete (transmit message callback) e c = (c, call callback e ∷ [])
complete (wait callback) e c = (c, call callback e ∷ [])
complete receive e c = let (c', made) = handle_received e c in (c', made ∷ [])

-- The call that an action of a client stands for, at a time and for an endpoint.
unfoldable pub perform : ℕ → Str → Str → Action → Connector → Connector
unfolding close_socket stop connect_to on_read on_write set_timer on_timeout
perform now host port connect c = connect_to host port on_connect c
perform now host port close c = close_socket c
perform now host port stop_connector c = stop c
perform now host port read c = on_read c
perform now host port (write message callback) c = on_write message callback c
perform now host port (timeout callback seconds) c = on_timeout now callback seconds c
perform now host port (reset_timer seconds) c = set_timer now seconds c

unfoldable pub perform_all : ℕ → Str → Str → List Action → Connector → Connector
unfolding perform
perform_all now host port [] c = c
perform_all now host port (a ∷ rest) c = perform_all now host port rest (perform now host port a c)

getline_tests :
    (getline (codes "a\r\nb") ≡ (codes "a\r", codes "b"))
    × (has_line (codes "ab\r\nc") ≡ true)
    × (has_line (codes "ab\nc\r") ≡ false)
unfolding getline has_line contains
getline_tests = (refl, refl, refl)
