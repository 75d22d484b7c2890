-- ===== src/Client.antt =====
-- src/client/Client.cpp, AprscClient.cpp, GpsdClient.cpp, SbsClient.cpp and SensorClient.cpp: the
-- connection of a client as a state machine. A handler gives the calls that it makes on the
-- connector, in order. The mutex makes each handler one step. The feeds enter as a list, with what
-- their `process` does to a world of theirs. The short waits on condition variables are left out:
-- `wait_for` goes on after its timeout in any case.
pub mod Machine
pub mod Pending
pub mod Stopping
pub mod Manager
pub mod Connector
use virtual_flight_radar_bac.Common.{ℕ, Bool, true, false, List, [], ◌∷◌, ◌++◌, if◌then◌else◌}
use virtual_flight_radar_bac.Common.Text.{Str, codes}

pub data State : Type 0 where
  idle connecting running stopping : State

-- The subclasses. An AprscClient has a login.
pub data Kind : Type 0 where
  aprsc : Str → Kind
  gpsd sbs sensor : Kind

pub data ErrorCode : Type 0 where
  success failure : ErrorCode

-- The handlers that a call on the connector names for its completion.
pub data Callback : Type 0 where
  on_connect on_login on_watch on_timed_connect : Callback
  on_read on_keep_alive on_beacon on_deadline on_watch_stopped : Callback

pub data Action : Type 0 where
  connect close stop_connector read : Action
  write : Str → Callback → Action
  timeout : Callback → ℕ → Action
  reset_timer : ℕ → Action

pub record Client : Type 0 where
  pub kind : Kind
  pub state : State

abbrev pub Result : Type 0
Result = Client × List Action

-- C_CON_WAIT_TIMEVAL, AC_BEACON_INT and WC_RCV_TIMEOUT, by include/parameters.h; seconds.
abbrev con_wait : ℕ
con_wait = 120

abbrev beacon_interval : ℕ
beacon_interval = 600

abbrev receive_timeout : ℕ
receive_timeout = 5

abbrev pub and_then : Result → List Action → Result
and_then (c, actions) more = (c, actions ++ more)

unfoldable pub connect_client : Client → Result
connect_client c = (record c { state = connecting }, connect ∷ [])

abbrev pub is_stopping : State → Bool
is_stopping stopping = true
is_stopping _ = false

abbrev is_running : State → Bool
is_running running = true
is_running _ = false

abbrev is_connecting : State → Bool
is_connecting connecting = true
is_connecting _ = false

abbrev pub is_idle : State → Bool
is_idle idle = true
is_idle _ = false

-- `reconnect`, with `timedConnect`.
unfoldable pub reconnect : Client → Result
reconnect c =
    if is_stopping c.state
    then (c, [])
    else (record c { state = connecting }, close ∷ timeout on_timed_connect con_wait ∷ [])

-- `Client::stop`.
unfoldable pub stop_base : Client → Result
stop_base c =
    if is_running c.state
    then (record c { state = stopping }, stop_connector ∷ [])
    else if is_connecting c.state
    then (record c { state = stopping }, stop_connector ∷ [])
    else (c, [])

abbrev watch_off : Str
watch_off = codes "?WATCH={\"enable\":false}\r\n"

abbrev stop_prelude : Kind → State → List Action
stop_prelude gpsd running = write watch_off on_watch_stopped ∷ []
stop_prelude _ _ = []

-- `stop`, virtual: `GpsdClient::stop` first ends the watch. `scheduleStop` waits and does the same.
unfoldable pub stop : Client → Result
unfolding stop_base
stop c = let (c', actions) = stop_base c in (c', stop_prelude c.kind c.state ++ actions)

-- `read`, virtual: `SensorClient::read` first resets its timer.
unfoldable pub read_actions : Kind → List Action
read_actions sensor = reset_timer receive_timeout ∷ read ∷ []
read_actions _ = read ∷ []

-- `run` up to the connector's own loop, and what follows that.
unfoldable pub run : Client → Result
unfolding connect_client
run c = if is_idle c.state then connect_client c else (c, [])

unfoldable pub run_returns : Client → Result
run_returns c = (record c { state = idle }, [])

unfoldable pub handle_timed_connect : ErrorCode → Client → Result
unfolding connect_client stop
handle_timed_connect success c = connect_client c
handle_timed_connect failure c = stop c

abbrev watch_on : Str
watch_on = codes "?WATCH={\"enable\":true,\"nmea\":true}\r\n"

-- The successful branch of `handleConnect` of AprscClient.
unfoldable pub connected_aprsc : Str → Client → Result
connected_aprsc login c = (c, write (login ++ codes "\r\n") on_login ∷ [])

-- That of GpsdClient.
unfoldable pub connected_gpsd : Client → Result
connected_gpsd c = (c, write watch_on on_watch ∷ [])

-- That of SbsClient.
unfoldable pub connected_sbs : Client → Result
unfolding read_actions
connected_sbs c = (record c { state = running }, read_actions sbs)

-- That of SensorClient.
unfoldable pub connected_sensor : Client → Result
unfolding read_actions
connected_sensor c =
    (record c { state = running }, timeout on_deadline receive_timeout ∷ read_actions sensor)

unfoldable pub connected : Kind → Client → Result
unfolding connected_aprsc connected_gpsd connected_sbs connected_sensor
connected (aprsc login) c = connected_aprsc login c
connected gpsd c = connected_gpsd c
connected sbs c = connected_sbs c
connected sensor c = connected_sensor c

unfoldable pub handle_connect : ErrorCode → Client → Result
unfolding connected reconnect
handle_connect success c = if is_connecting c.state then connected c.kind c else (c, [])
handle_connect failure c = if is_connecting c.state then reconnect c else (c, [])

-- `sendKeepAlive`.
abbrev send_keep_alive : Action
send_keep_alive = timeout on_keep_alive beacon_interval

-- `AprscClient::handleLogin`.
unfoldable pub handle_login : ErrorCode → Client → Result
unfolding read_actions reconnect
handle_login success c =
    if is_connecting c.state
    then (record c { state = running }, send_keep_alive ∷ read_actions c.kind)
    else (c, [])
handle_login failure c = if is_connecting c.state then reconnect c else (c, [])

-- `AprscClient::handleSendKeepAlive`, and the handler of its write.
unfoldable pub handle_keep_alive : ErrorCode → Client → Result
handle_keep_alive success c =
    if is_running c.state
    then (c, write (codes "#keep-alive beacon\r\n") on_beacon ∷ send_keep_alive ∷ [])
    else (c, [])
handle_keep_alive failure c = if is_running c.state then (c, send_keep_alive ∷ []) else (c, [])

unfoldable pub handle_beacon : ErrorCode → Client → Result
unfolding reconnect
handle_beacon success c = (c, [])
handle_beacon failure c = if is_running c.state then reconnect c else (c, [])

-- `GpsdClient::handleWatch`.
unfoldable pub handle_watch : ErrorCode → Client → Result
unfolding read_actions reconnect
handle_watch success c =
    if is_connecting c.state then (record c { state = running }, read_actions c.kind) else (c, [])
handle_watch failure c = if is_connecting c.state then reconnect c else (c, [])

-- `SensorClient::checkDeadline`.
unfoldable pub check_deadline : ErrorCode → Client → Result
unfolding reconnect
check_deadline success c = if is_running c.state then reconnect c else (c, [])
check_deadline failure c = if is_running c.state then (c, timeout on_deadline 0 ∷ []) else (c, [])

-- The loop of `handleRead` over the feeds: one that does not go on stops the client, and the loop
-- goes on.
module _ {F World : Type 0} (process : F → Str → World → World × Bool) where
  unfoldable pub feed_all : List F → Str → World → Client → World × Result
  unfolding stop
  feed_all [] response w c = (w, (c, []))
  feed_all (f ∷ fs) response w c =
      let (w', goes_on) = process f response w in
      let stopped : Result = if goes_on then (c, []) else stop c in
      let (w'', (c', actions)) = feed_all fs response w' stopped.0 in
      (w'', (c', stopped.1 ++ actions))

  unfoldable pub handle_read : List F → ErrorCode → Str → World → Client → World × Result
  unfolding feed_all read_actions reconnect
  handle_read fs success response w c =
      if is_running c.state
      then (let (w', (c', actions)) = feed_all fs response w c in
          (w', (c', actions ++ read_actions c.kind)))
      else (w, (c, []))
  handle_read fs failure response w c =
      if is_running c.state then (w, reconnect c) else (w, (c, []))
