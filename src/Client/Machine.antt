-- ===== src/Client/Machine.antt =====
-- A client among the completions of its calls: the steps, and the diagram of its states.
use virtual_flight_radar_bac.Common.{◌≡◌, ◌⊎◌, inl, Bool, List, [], ◌∷◌, arith, if◌then◌else◌}
use virtual_flight_radar_bac.Common.Text.{Str}
use virtual_flight_radar_bac.Client
use virtual_flight_radar_bac.Client.{
  State, idle, connecting, running, stopping, Kind, aprsc, gpsd, sbs, sensor, ErrorCode, success,
  failure, Callback, Action, connect, read, write, timeout, Result, feed_all, handle_read, is_idle,
  is_running, is_connecting, is_stopping,
}

-- What can happen: the program runs or stops the client, the connector's loop ends, and a call on
-- the connector completes.
pub data Event : Type 0 where
  runs returns stops : Event
  connects logs_in watches wakes keeps_alive beacons deadline : ErrorCode → Event
  reads : ErrorCode → Str → Event

-- The handlers that do not involve the feeds.
unfoldable pub handle : Event → Client.Client → Result
handle runs c = Client.run c
handle returns c = Client.run_returns c
handle stops c = Client.stop c
handle (connects e) c = Client.handle_connect e c
handle (logs_in e) c = Client.handle_login e c
handle (watches e) c = Client.handle_watch e c
handle (wakes e) c = Client.handle_timed_connect e c
handle (keeps_alive e) c = Client.handle_keep_alive e c
handle (beacons e) c = Client.handle_beacon e c
handle (deadline e) c = Client.check_deadline e c
handle (reads e response) c = (c, [])

-- The diagram: where a client can go in one step.
pub data Edge : State → State → Type 0 where
  stay : {s : State} → Edge s s
  start : Edge idle connecting
  up : Edge connecting running
  lose : Edge running connecting
  halt : Edge running stopping
  give_up : Edge connecting stopping
  retry : Edge stopping connecting
  leave : {s : State} → Edge s idle

ruleset edges = (stay, start, up, lose, halt, give_up, retry, leave)

handle-Edge : (e : Event) (c : Client.Client) → Edge c.state (handle e c).0.state
unfolding handle Client.run Client.run_returns Client.stop Client.handle_connect Client.handle_login
    Client.handle_watch Client.handle_timed_connect Client.handle_keep_alive Client.handle_beacon
    Client.check_deadline
handle-Edge runs c = grind (arith, edges)
handle-Edge returns c = leave
handle-Edge stops c = grind (arith, edges)
handle-Edge (connects success) c = go c.kind c
  where
    go :
        (k : Kind) (c : Client.Client)
        → Edge c.state (if is_connecting c.state then Client.connected k c else (c, [])).0.state
    go (aprsc l) c = grind (arith, edges)
    go gpsd c = grind (arith, edges)
    go sbs c = grind (arith, edges)
    go sensor c = grind (arith, edges)
handle-Edge (connects failure) c = grind (arith, edges)
handle-Edge (logs_in success) c = grind (arith, edges)
handle-Edge (logs_in failure) c = grind (arith, edges)
handle-Edge (watches success) c = grind (arith, edges)
handle-Edge (watches failure) c = grind (arith, edges)
handle-Edge (wakes success) c = grind (arith, edges)
handle-Edge (wakes failure) c = grind (arith, edges)
handle-Edge (keeps_alive success) c = grind (arith, edges)
handle-Edge (keeps_alive failure) c = grind (arith, edges)
handle-Edge (beacons success) c = grind (arith, edges)
handle-Edge (beacons failure) c = grind (arith, edges)
handle-Edge (deadline success) c = grind (arith, edges)
handle-Edge (deadline failure) c = grind (arith, edges)
handle-Edge (reads e response) c = stay

-- What completing all the feeds' work can do to the state.
abbrev IsReadEnd : State → State → Type 0
IsReadEnd s s' = (s' ≡ s) ⊎ ((s ≡ running) × (s' ≡ stopping))

module _ {F World : Type 0} (process : F → Str → World → World × Bool) where
  feed_all-stays :
      (fs : List F) (response : Str) (w : World) (c : Client.Client)
      → c.state ≡ stopping
      → (feed_all process fs response w c).1.0.state ≡ stopping
  unfolding feed_all Client.stop
  feed_all-stays [] response w c h = h
  feed_all-stays (f ∷ fs) response w c h = ground (
    arith,
    feed_all-stays fs response (process f response w).0 c h,
    feed_all-stays fs response (process f response w).0 (Client.stop c).0,
  )

  pub feed_all-running :
      (fs : List F) (response : Str) (w : World) (c : Client.Client)
      → c.state ≡ running
      → let s' = (feed_all process fs response w c).1.0.state in (s' ≡ running) ⊎ (s' ≡ stopping)
  unfolding feed_all Client.stop
  feed_all-running [] response w c h = inl h
  feed_all-running (f ∷ fs) response w c h = ground (
    arith,
    feed_all-running fs response (process f response w).0 c h,
    feed_all-stays fs response (process f response w).0 (Client.stop c).0,
  )

  -- One step, with what it asks of the connector.
  unfoldable pub step : List F → Event → World → Client.Client → World × Result
  unfolding handle
  step fs (reads e response) w c = handle_read process fs e response w c
  step fs e w c = (w, handle e c)

  -- Whatever happens, the state of a client moves along the diagram only.
  pub step-Edge :
      (fs : List F) (e : Event) (w : World) (c : Client.Client)
      → Edge c.state (step fs e w c).1.0.state
  unfolding step handle_read
  step-Edge fs (reads success response) w c = grind (arith, edges, feed_all-running fs response w c)
  step-Edge fs (reads failure response) w c = grind (arith, edges)
  step-Edge fs runs w c = handle-Edge runs c
  step-Edge fs returns w c = handle-Edge returns c
  step-Edge fs stops w c = handle-Edge stops c
  step-Edge fs (connects e) w c = handle-Edge (connects e) c
  step-Edge fs (logs_in e) w c = handle-Edge (logs_in e) c
  step-Edge fs (watches e) w c = handle-Edge (watches e) c
  step-Edge fs (wakes e) w c = handle-Edge (wakes e) c
  step-Edge fs (keeps_alive e) w c = handle-Edge (keeps_alive e) c
  step-Edge fs (beacons e) w c = handle-Edge (beacons e) c
  step-Edge fs (deadline e) w c = handle-Edge (deadline e) c
