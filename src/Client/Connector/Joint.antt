-- ===== src/Client/Connector/Joint.antt =====
-- A client and its connector together: the calls that the client makes become operations, and the
-- operations that complete call the client.
pub mod Summary
pub mod Alive
pub mod Reach
mod Stops
pub mod Ends
use virtual_flight_radar_bac.Common.{
  ℕ, zero, suc, Bool, Option, none, some, List, [], ◌∷◌, ◌++◌, get_elem?,
}
use virtual_flight_radar_bac.Common.Text.{Str}
use virtual_flight_radar_bac.Client
use virtual_flight_radar_bac.Client.{
  Kind, idle, ErrorCode, Callback, on_connect, on_login, on_watch, on_timed_connect, on_read,
  on_keep_alive, on_beacon, on_deadline, on_watch_stopped, Result,
}
use virtual_flight_radar_bac.Client.Machine.{
  Event, runs, stops, connects, logs_in, watches, wakes, keeps_alive, beacons, deadline, reads,
  step,
}
use virtual_flight_radar_bac.Client.Connector
use virtual_flight_radar_bac.Client.Connector.{
  Operation, Connector, Call, call, call_read, complete, perform_all,
}

pub record Joint (World : Type 0) : Type 0 where
  pub client : Client.Client
  pub world : World
  pub connector : Connector

-- The program stops the client, the operation at a place completes, or bytes arrive; each with what
-- the clock shows.
pub data Stimulus : Type 0 where
  is_stopped : ℕ → Stimulus
  completes : ℕ → ℕ → ErrorCode → Stimulus
  arrives : Str → Stimulus

-- The handler of the client that a callback is; that of the end of a watch only wakes a thread.
unfoldable pub event_of : Call → Option Event
event_of (call on_connect e) = some (connects e)
event_of (call on_login e) = some (logs_in e)
event_of (call on_watch e) = some (watches e)
event_of (call on_timed_connect e) = some (wakes e)
event_of (call on_keep_alive e) = some (keeps_alive e)
event_of (call on_beacon e) = some (beacons e)
event_of (call on_deadline e) = some (deadline e)
event_of (call on_read e) = none
event_of (call on_watch_stopped e) = none
event_of (call_read e response) = some (reads e response)

abbrev pub remove_at : ℕ → List Operation → List Operation
remove_at i [] = []
remove_at zero (o ∷ os) = os
remove_at (suc i) (o ∷ os) = o ∷ remove_at i os

module _ {F World : Type 0} (process : F → Str → World → World × Bool) (host port : Str) where
  unfoldable pub handle_event : ℕ → List F → Event → Joint World → Joint World
  handle_event now fs e j =
      let (w, (c, actions)) = step process fs e j.world j.client in
      record { client = c; world = w; connector = perform_all now host port actions j.connector }

  unfoldable pub handle_call : ℕ → List F → Call → Joint World → Joint World
  unfolding event_of
  handle_call now fs k j = elim (event_of k) [ none ↦ j | some e ↦ handle_event now fs e j ]

  unfoldable pub handle_calls : ℕ → List F → List Call → Joint World → Joint World
  unfolding handle_call
  handle_calls now fs [] j = j
  handle_calls now fs (k ∷ ks) j = handle_calls now fs ks (handle_call now fs k j)

  -- The event queue takes an operation that is done, and runs its handler.
  unfoldable pub dispatch :
      ℕ → List F → Option Operation → ℕ → ErrorCode → Joint World → Joint World
  unfolding handle_calls
  dispatch now fs none i e j = j
  dispatch now fs (some o) i e j =
      let left = record j.connector { pending = remove_at i j.connector.pending } in
      let (connector, calls) = complete o e left in
      handle_calls now fs calls (record j { connector = connector })

  unfoldable pub next : List F → Stimulus → Joint World → Joint World
  unfolding handle_event dispatch
  next fs (is_stopped now) j = handle_event now fs stops j
  next fs (completes now i e) j = dispatch now fs (get_elem? j.connector.pending i) i e j
  next fs (arrives s) j = record j {
    connector = record j.connector { buffer = j.connector.buffer ++ s };
  }

  -- A new client and a new connector, once the client runs.
  unfoldable pub start : ℕ → List F → Kind → World → Joint World
  unfolding handle_event
  start now fs k w = handle_event now fs runs (record {
    client = record { kind = k; state = idle };
    world = w;
    connector = Connector.initial;
  })

  unfoldable pub run_all : List F → List Stimulus → Joint World → Joint World
  unfolding next
  run_all fs [] j = j
  run_all fs (s ∷ rest) j = run_all fs rest (next fs s j)
