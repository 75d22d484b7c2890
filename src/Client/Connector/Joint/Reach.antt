-- ===== src/Client/Connector/Joint/Reach.antt =====
-- What holds of a client and its connector however they run.
use mathlib.Core.Path.{subst}
use virtual_flight_radar_bac.Common.{
  ℕ, ◌≤◌, ◌<◌, ◌≡◌, refl, Bool, true, List, [], ◌∷◌, arith, get_elem?, inl, inr, Option-cases,
}
use virtual_flight_radar_bac.Common.Text.{Str}
use virtual_flight_radar_bac.Client
use virtual_flight_radar_bac.Client.{
  State, idle, connecting, running, stopping, Kind, ErrorCode, success, failure, Callback,
  on_connect, on_login, on_watch, on_timed_connect, on_read, on_keep_alive, on_beacon, on_deadline,
  on_watch_stopped,
}
use virtual_flight_radar_bac.Client.Machine.{
  Event, runs, stops, connects, logs_in, watches, wakes, keeps_alive, beacons, deadline, reads,
  step,
}
use virtual_flight_radar_bac.Client.Connector
use virtual_flight_radar_bac.Client.Connector.{
  Operation, resolve, establish, transmit, wait, receive, Connector, Call, call, call_read,
  complete, perform_all,
}
use virtual_flight_radar_bac.Client.Connector.Joint.{
  Joint, Stimulus, is_stopped, completes, arrives, event_of, remove_at, handle_event, handle_call,
  handle_calls, dispatch, next, start, run_all,
}
use virtual_flight_radar_bac.Client.Connector.Joint.Summary.{
  Summary, sort_of, add, reading, summary_of, tally-remove_at, tally-open, tally-append,
  tally-logging-le, summary_of-perform_all,
}
use virtual_flight_radar_bac.Client.Connector.Joint.Alive.{
  IsAlive, Before, handle-IsAlive, handle_read-IsAlive,
}

-- What a client in a state waits for.
abbrev pub Waits : State → Summary → Type 0
Waits idle n = Unit {0}
Waits connecting n = n.reaching ≡ 1
Waits running n = (n.is_open ≡ true) × (0 < n.reading)
Waits stopping n = Unit {0}

IsAlive-Waits : (s : State) (n : Summary) → IsAlive s n → Waits s n
IsAlive-Waits idle n a = tt
IsAlive-Waits connecting n a = a.reaches refl
IsAlive-Waits running n a = ((a.hears refl).0, (a.hears refl).1)
IsAlive-Waits stopping n a = tt

module _ {F World : Type 0} (process : F → Str → World → World × Bool) (host port : Str) where
  abbrev pub IsAliveJoint : Joint World → Type 0
  IsAliveJoint j = IsAlive j.client.state (summary_of j.connector)

  abbrev BeforeJoint : Event → Joint World → Type 0
  BeforeJoint e j = Before e j.client.state (summary_of j.connector)

  handle_event-IsAlive :
      (now : ℕ) (fs : List F) (e : Event) (j : Joint World)
      → BeforeJoint e j
      → IsAliveJoint (handle_event process host port now fs e j)
  unfolding handle_event step
  handle_event-IsAlive now fs (reads e response) j b = absurd b
  handle_event-IsAlive now fs e j b =
      rw (summary_of-perform_all now host port (Client.Machine.handle e j.client).1 j.connector)
        (handle-IsAlive (summary_of j.connector) e j.client b)

  handle_reads-IsAlive :
      (now : ℕ) (fs : List F) (e : ErrorCode) (response : Str) (j : Joint World)
      → IsAlive j.client.state (add reading (summary_of j.connector))
      → IsAliveJoint (handle_event process host port now fs (reads e response) j)
  unfolding handle_event step
  handle_reads-IsAlive now fs e response j a =
      rw
        (summary_of-perform_all now host port
          (Client.handle_read process fs e response j.world j.client).1.1 j.connector)
        (handle_read-IsAlive process fs e response j.world j.client (summary_of j.connector) a)

  -- The joint state after the handler of an operation that has been taken off the queue.
  abbrev finish : ℕ → List F → Operation → ErrorCode → Joint World → Joint World
  finish now fs o e j =
      let (connector, calls) = complete o e j.connector in
      handle_calls process host port now fs calls (record j { connector = connector })

  abbrev Finishes : Operation → Type 0
  Finishes o =
      (now : ℕ) (fs : List F) (e : ErrorCode) (j : Joint World)
      → IsAlive j.client.state (add (sort_of o) (summary_of j.connector))
      → IsAliveJoint (finish now fs o e j)

  within : (j : Joint World) → (summary_of j.connector).logging ≤ (summary_of j.connector).reaching
  within j = tally-logging-le j.connector.is_open j.connector.pending

  finish-resolve : (at port_name : Str) (k : Callback) → Finishes (resolve at port_name k)
  unfolding complete handle_calls handle_call event_of
  finish-resolve at port_name on_connect now fs success j a =
      rw (tally-append j.connector.is_open j.connector.pending (establish on_connect)) a
  finish-resolve at port_name on_connect now fs failure j a =
      handle_event-IsAlive now fs (connects failure) j (ground (arith, within j))
  finish-resolve at port_name k now fs e j a = absurd (omega (arith, a.proper))

  finish-establish : (k : Callback) → Finishes (establish k)
  unfolding complete handle_calls handle_call event_of
  finish-establish on_connect now fs success j a =
      handle_event-IsAlive now fs (connects success)
        (record j { connector = record j.connector { is_open = true } })
        (rw (tally-open true j.connector.is_open j.connector.pending) (ground (arith, within j)))
  finish-establish on_connect now fs failure j a =
      handle_event-IsAlive now fs (connects failure) j (ground (arith, within j))
  finish-establish k now fs e j a = absurd (omega (arith, a.proper))

  finish-transmit : (message : Str) (k : Callback) → Finishes (transmit message k)
  unfolding complete handle_calls handle_call event_of
  finish-transmit message on_login now fs success j a =
      handle_event-IsAlive now fs (logs_in success) j (ground (arith, within j))
  finish-transmit message on_login now fs failure j a =
      handle_event-IsAlive now fs (logs_in failure) j (ground (arith, within j))
  finish-transmit message on_watch now fs success j a =
      handle_event-IsAlive now fs (watches success) j (ground (arith, within j))
  finish-transmit message on_watch now fs failure j a =
      handle_event-IsAlive now fs (watches failure) j (ground (arith, within j))
  finish-transmit message on_beacon now fs e j a =
      handle_event-IsAlive now fs (beacons e) j (ground arith)
  finish-transmit message on_watch_stopped now fs e j a = ground arith
  finish-transmit message k now fs e j a = absurd (omega (arith, a.proper))

  finish-wait : (k : Callback) → Finishes (wait k)
  unfolding complete handle_calls handle_call event_of
  finish-wait on_timed_connect now fs e j a =
      handle_event-IsAlive now fs (wakes e) j (ground (arith, within j))
  finish-wait on_keep_alive now fs e j a =
      handle_event-IsAlive now fs (keeps_alive e) j (ground arith)
  finish-wait on_deadline now fs e j a = handle_event-IsAlive now fs (deadline e) j (ground arith)
  finish-wait k now fs e j a = absurd (omega (arith, a.proper))

  finish-receive : Finishes receive
  unfolding complete handle_calls handle_call event_of
  finish-receive now fs success j a =
      handle_reads-IsAlive now fs success _
        (record j { connector = (Connector.handle_received success j.connector).0 }) a
  finish-receive now fs failure j a = handle_reads-IsAlive now fs failure _ j a

  finish-IsAlive : (o : Operation) → Finishes o
  finish-IsAlive (resolve at port_name k) = finish-resolve at port_name k
  finish-IsAlive (establish k) = finish-establish k
  finish-IsAlive (transmit message k) = finish-transmit message k
  finish-IsAlive (wait k) = finish-wait k
  finish-IsAlive receive = finish-receive

  next-IsAlive :
      (fs : List F) (s : Stimulus) (j : Joint World)
      → IsAliveJoint j
      → IsAliveJoint (next process host port fs s j)
  unfolding next
  next-IsAlive fs (is_stopped now) j a = handle_event-IsAlive now fs stops j a
  next-IsAlive fs (arrives s) j a = a
  next-IsAlive fs (completes now i e) j a = elim (Option-cases (get_elem? j.connector.pending i)) [
    | inl empty ↦ rw (empty, dispatch) a
    | inr (o, found) ↦
        rw (found, dispatch)
          (finish-IsAlive o now fs e
            (record j {
              connector = record j.connector { pending = remove_at i j.connector.pending };
            })
            (subst (IsAlive j.client.state)
              (tally-remove_at j.connector.is_open j.connector.pending i o found) a))
  ]

  start-IsAlive :
      (now : ℕ) (fs : List F) (k : Kind) (w : World)
      → IsAliveJoint (start process host port now fs k w)
  unfolding start Connector.initial
  start-IsAlive now fs k w =
      handle_event-IsAlive now fs runs
        (record {
          client = record { kind = k; state = idle };
          world = w;
          connector = Connector.initial;
        })
        (ground arith)

  run_all-IsAlive :
      (fs : List F) (rest : List Stimulus) (j : Joint World)
      → IsAliveJoint j
      → IsAliveJoint (run_all process host port fs rest j)
  unfolding run_all
  run_all-IsAlive fs [] j a = a
  run_all-IsAlive fs (s ∷ rest) j a =
      run_all-IsAlive fs rest (next process host port fs s j) (next-IsAlive fs s j a)

  -- However a client runs with its connector, over which nothing is read or written while the socket
  -- is closed: while it is connecting, exactly one operation is pending that goes on with it, and
  -- while it is running, its socket is open and a read is pending.
  pub run_all-Waits :
      (now : ℕ) (fs : List F) (k : Kind) (w : World) (rest : List Stimulus)
      → let j = run_all process host port fs rest (start process host port now fs k w) in
        Waits j.client.state (summary_of j.connector)
  run_all-Waits now fs k w rest =
      let first = start process host port now fs k w in
      IsAlive-Waits _ _ (run_all-IsAlive fs rest first (start-IsAlive now fs k w))
