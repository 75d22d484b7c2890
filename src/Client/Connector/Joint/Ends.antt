-- ===== src/Client/Connector/Joint/Ends.antt =====
-- How a client and its connector end together.
use virtual_flight_radar_bac.Common.{
  ℕ, ◌≡◌, refl, Bool, true, false, not, ◌&&◌, List, [], ◌∷◌, arith, get_elem?, inl, inr,
  Option-cases,
}
use virtual_flight_radar_bac.Common.Text.{Str}
use virtual_flight_radar_bac.Client
use virtual_flight_radar_bac.Client.{
  State, idle, stopping, Kind, aprsc, gpsd, sbs, sensor, ErrorCode, success, failure, Action,
  connect, close, stop_connector, read, write, timeout, reset_timer, feed_all, handle_read, is_idle,
  is_stopping, is_connecting, Result, read_actions,
}
use virtual_flight_radar_bac.Client.Machine.{
  Event, returns, stops, connects, logs_in, watches, wakes, keeps_alive, beacons, deadline, reads,
  handle, step,
}
use virtual_flight_radar_bac.Client.Connector
use virtual_flight_radar_bac.Client.Connector.{
  Connector, Operation, Call, call, call_read, perform, perform_all, complete,
}
use virtual_flight_radar_bac.Client.Connector.Joint.{
  Joint, Stimulus, is_stopped, completes, arrives, event_of, handle_event, handle_call,
  handle_calls, dispatch, next, start, run_all, remove_at,
}
use virtual_flight_radar_bac.Client.Connector.Joint.Stops.{
  perform_all-stopped, handle-IsEnding, handle_read-IsEnding,
}

module _ {F World : Type 0} (process : F → Str → World → World × Bool) (host port : Str) where
  -- A client that is not idle, and that is stopping only with its connector stopped.
  pub record IsAware (j : Joint World) : Type 0 where
    pub busy : is_idle j.client.state ≡ false
    pub ended : is_stopping j.client.state && not j.connector.stopped ≡ false

  handle_event-IsAware :
      (now : ℕ) (fs : List F) (e : Event) (j : Joint World)
      → (e ≡ returns → ⊥)
      → IsAware j
      → IsAware (handle_event process host port now fs e j)
  unfolding handle_event step
  handle_event-IsAware now fs returns j h a = absurd (h refl)
  handle_event-IsAware now fs (reads e response) j h a =
      let r = handle_read process fs e response j.world j.client in
      ground (
        arith,
        a.busy,
        a.ended,
        handle_read-IsEnding process fs e response j.world j.client,
        perform_all-stopped now host port r.1.1 j.connector,
      )
  handle_event-IsAware now fs e j h a = ground (
    arith,
    a.busy,
    a.ended,
    handle-IsEnding e j.client h,
    perform_all-stopped now host port (handle e j.client).1 j.connector,
  )

  handle_call-IsAware :
      (now : ℕ) (fs : List F) (k : Call) (j : Joint World)
      → IsAware j
      → IsAware (handle_call process host port now fs k j)
  unfolding handle_call event_of
  handle_call-IsAware now fs (call Client.on_connect e) j a =
      handle_event-IsAware now fs (connects e) j (λ h. cc) a
  handle_call-IsAware now fs (call Client.on_login e) j a =
      handle_event-IsAware now fs (logs_in e) j (λ h. cc) a
  handle_call-IsAware now fs (call Client.on_watch e) j a =
      handle_event-IsAware now fs (watches e) j (λ h. cc) a
  handle_call-IsAware now fs (call Client.on_timed_connect e) j a =
      handle_event-IsAware now fs (wakes e) j (λ h. cc) a
  handle_call-IsAware now fs (call Client.on_keep_alive e) j a =
      handle_event-IsAware now fs (keeps_alive e) j (λ h. cc) a
  handle_call-IsAware now fs (call Client.on_beacon e) j a =
      handle_event-IsAware now fs (beacons e) j (λ h. cc) a
  handle_call-IsAware now fs (call Client.on_deadline e) j a =
      handle_event-IsAware now fs (deadline e) j (λ h. cc) a
  handle_call-IsAware now fs (call Client.on_read e) j a = a
  handle_call-IsAware now fs (call Client.on_watch_stopped e) j a = a
  handle_call-IsAware now fs (call_read e response) j a =
      handle_event-IsAware now fs (reads e response) j (λ h. cc) a

  handle_calls-IsAware :
      (now : ℕ) (fs : List F) (ks : List Call) (j : Joint World)
      → IsAware j
      → IsAware (handle_calls process host port now fs ks j)
  unfolding handle_calls
  handle_calls-IsAware now fs [] j a = a
  handle_calls-IsAware now fs (k ∷ ks) j a =
      handle_calls-IsAware now fs ks (handle_call process host port now fs k j)
        (handle_call-IsAware now fs k j a)

  complete-stopped :
      (o : Operation) (e : ErrorCode) (c : Connector) → (complete o e c).0.stopped ≡ c.stopped
  unfolding complete Connector.handle_resolved Connector.handle_received
  complete-stopped (Connector.resolve at with_port k) success c = refl
  complete-stopped (Connector.resolve at with_port k) failure c = refl
  complete-stopped (Connector.establish k) success c = refl
  complete-stopped (Connector.establish k) failure c = refl
  complete-stopped (Connector.transmit m k) e c = refl
  complete-stopped (Connector.wait k) e c = refl
  complete-stopped Connector.receive success c = refl
  complete-stopped Connector.receive failure c = refl

  pub next-IsAware :
      (fs : List F) (s : Stimulus) (j : Joint World)
      → IsAware j
      → IsAware (next process host port fs s j)
  unfolding next dispatch
  next-IsAware fs (is_stopped now) j a = handle_event-IsAware now fs stops j (λ h. cc) a
  next-IsAware fs (arrives s) j a = record { busy = a.busy; ended = a.ended }
  next-IsAware fs (completes now i e) j a = elim (Option-cases (get_elem? j.connector.pending i)) [
    | inl empty ↦ rw (empty, dispatch) a
    | inr (o, found) ↦
        let left = record j.connector { pending = remove_at i j.connector.pending } in
        rw (found, dispatch)
          (handle_calls-IsAware now fs (complete o e left).1
            (record j { connector = (complete o e left).0 })
            (record { busy = a.busy; ended = rw (complete-stopped o e left) a.ended }))
  ]

  pub start-IsAware :
      (now : ℕ) (fs : List F) (k : Kind) (w : World) → IsAware (start process host port now fs k w)
  unfolding start handle_event step handle Client.run Client.connect_client
  start-IsAware now fs k w = record { busy = refl; ended = refl }

  run_all-IsAware :
      (fs : List F) (rest : List Stimulus) (j : Joint World)
      → IsAware j
      → IsAware (run_all process host port fs rest j)
  unfolding run_all
  run_all-IsAware fs [] j a = a
  run_all-IsAware fs (s ∷ rest) j a =
      run_all-IsAware fs rest (next process host port fs s j) (next-IsAware fs s j a)

  pub stopped-IsAware :
      (now : ℕ) (fs : List F) (j : Joint World)
      → IsAware j
      → let j' = next process host port fs (is_stopped now) j in
        (j'.client.state ≡ stopping) × (j'.connector.stopped ≡ true)
  unfolding next handle_event step handle Client.stop Client.stop_base
  stopped-IsAware now fs j a = ground (
    arith,
    a.busy,
    a.ended,
    perform_all-stopped now host port (Client.stop j.client).1 j.connector,
  )

  -- However a client has run with its connector since its start, it is never idle by itself, and once
  -- the program stops it, it is stopping and the event queue of its connector is stopped: nothing
  -- keeps the thread that waits for that queue.
  pub run_all-stops :
      (now later : ℕ) (fs : List F) (k : Kind) (w : World) (rest : List Stimulus)
      → let j = run_all process host port fs rest (start process host port now fs k w) in
        let j' = next process host port fs (is_stopped later) j in
        (is_idle j.client.state ≡ false)
        × (j'.client.state ≡ stopping)
        × (j'.connector.stopped ≡ true)
  run_all-stops now later fs k w rest =
      let a = run_all-IsAware fs rest _ (start-IsAware now fs k w) in
      let (halts, ended) = stopped-IsAware later fs _ a in (a.busy, halts, ended)
