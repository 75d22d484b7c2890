-- ===== src/Client/Manager/Threads/Lines.antt =====
-- What is known of the lines that the connectors hand over is known of those that the clients read.
use virtual_flight_radar_bac.Common.{Option, none, some, [], ◌∷◌, ◌++◌, All}
use virtual_flight_radar_bac.Common.Text.{Str}
use virtual_flight_radar_bac.Client.{
  ErrorCode, success, failure, on_connect, on_login, on_watch, on_timed_connect, on_read,
  on_keep_alive, on_beacon, on_deadline, on_watch_stopped,
}
use virtual_flight_radar_bac.Client.Machine
use virtual_flight_radar_bac.Client.Machine.{reads}
use virtual_flight_radar_bac.Client.Connector.{
  Operation, resolve, establish, transmit, wait, receive, Connector, Call, call, call_read, getline,
  handle_received, handle_resolved, complete,
}
use virtual_flight_radar_bac.Client.Connector.Joint.{event_of}
use virtual_flight_radar_bac.Client.Manager.Threads.{Thread}

-- The line that a connector hands over where a read succeeds now.
abbrev pub next_line : Connector → Str
next_line c = (getline c.buffer).0 ++ b'\n' ∷ []

module _ (L : Str → Type 0) where
  abbrev pub IsTidy : {F : Type 0} → Thread F → Type 0
  IsTidy t = L (next_line t.connector)

  -- What a call hands over.
  abbrev pub Hands : Call → Type 0
  Hands (call callback e) = Unit {0}
  Hands (call_read success s) = L s
  Hands (call_read failure s) = Unit {0}

  abbrev pub HandsOver : Machine.Event → Type 0
  HandsOver (reads success s) = L s
  HandsOver _ = Unit {0}

  abbrev pub HandsAny : Option Machine.Event → Type 0
  HandsAny none = Unit {0}
  HandsAny (some e) = HandsOver e

  pub complete-Hands :
      (o : Operation) (e : ErrorCode) (c : Connector)
      → L (next_line c)
      → All Hands (complete o e c).1
  unfolding complete handle_received handle_resolved
  complete-Hands (resolve host port callback) success c h = tt
  complete-Hands (resolve host port callback) failure c h = (tt, tt)
  complete-Hands (establish callback) success c h = (tt, tt)
  complete-Hands (establish callback) failure c h = (tt, tt)
  complete-Hands (transmit message callback) e c h = (tt, tt)
  complete-Hands (wait callback) e c h = (tt, tt)
  complete-Hands receive success c h = (h, tt)
  complete-Hands receive failure c h = (tt, tt)

  pub event_of-HandsAny : (k : Call) → Hands k → HandsAny (event_of k)
  unfolding event_of
  event_of-HandsAny (call on_connect e) h = tt
  event_of-HandsAny (call on_login e) h = tt
  event_of-HandsAny (call on_watch e) h = tt
  event_of-HandsAny (call on_timed_connect e) h = tt
  event_of-HandsAny (call on_keep_alive e) h = tt
  event_of-HandsAny (call on_beacon e) h = tt
  event_of-HandsAny (call on_deadline e) h = tt
  event_of-HandsAny (call on_read e) h = tt
  event_of-HandsAny (call on_watch_stopped e) h = tt
  event_of-HandsAny (call_read success s) h = h
  event_of-HandsAny (call_read failure s) h = tt
