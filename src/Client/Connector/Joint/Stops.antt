-- ===== src/Client/Connector/Joint/Stops.antt =====
-- How a client ends: with its connector.
use virtual_flight_radar_bac.Common.{
  ℕ, ◌≡◌, refl, Bool, true, false, not, ◌&&◌, ◌||◌, List, [], ◌∷◌, ◌++◌, arith,
}
use virtual_flight_radar_bac.Common.Text.{Str}
use virtual_flight_radar_bac.Client
use virtual_flight_radar_bac.Client.{
  State, idle, stopping, Kind, aprsc, gpsd, sbs, sensor, ErrorCode, success, failure, Action,
  connect, close, stop_connector, read, write, timeout, reset_timer, feed_all, handle_read, is_idle,
  is_stopping, is_connecting, Result, read_actions,
}
use virtual_flight_radar_bac.Client.Machine.{
  Event, runs, returns, stops, connects, logs_in, watches, wakes, keeps_alive, beacons, deadline,
  reads, handle,
}
use virtual_flight_radar_bac.Client.Connector
use virtual_flight_radar_bac.Client.Connector.{
  Connector, Operation, Call, call, call_read, perform, perform_all, complete,
}

-- Whether the connector is told to stop.
abbrev pub has_stop : List Action → Bool
has_stop [] = false
has_stop (stop_connector ∷ actions) = true
has_stop (_ ∷ actions) = has_stop actions

has_stop-append : (a b : List Action) → has_stop (a ++ b) ≡ (has_stop a || has_stop b)
has_stop-append [] b = refl
has_stop-append (stop_connector ∷ a) b = refl
has_stop-append (connect ∷ a) b = has_stop-append a b
has_stop-append (close ∷ a) b = has_stop-append a b
has_stop-append (read ∷ a) b = has_stop-append a b
has_stop-append (write m k ∷ a) b = has_stop-append a b
has_stop-append (timeout k n ∷ a) b = has_stop-append a b
has_stop-append (reset_timer n ∷ a) b = has_stop-append a b

pub perform_all-stopped :
    (now : ℕ) (host port : Str) (actions : List Action) (c : Connector)
    → (perform_all now host port actions c).stopped ≡ (c.stopped || has_stop actions)
unfolding perform_all perform Connector.close_socket Connector.stop Connector.connect_to
    Connector.on_read Connector.on_write Connector.on_timeout Connector.set_timer
perform_all-stopped now host port [] c = ground arith
perform_all-stopped now host port (stop_connector ∷ actions) c =
    ground (arith, perform_all-stopped now host port actions (Connector.stop c))
perform_all-stopped now host port (connect ∷ actions) c =
    perform_all-stopped now host port actions _
perform_all-stopped now host port (close ∷ actions) c = perform_all-stopped now host port actions _
perform_all-stopped now host port (a ∷ actions) c =
    ground (arith, perform_all-stopped now host port actions (perform now host port a c))

-- A client only stops with its connector, and is not idle again by itself.
pub record IsEnding (s : State) (r : Result) : Type 0 where
  pub ends : is_stopping r.0.state && not (is_stopping s || has_stop r.1) ≡ false
  pub stays : is_idle r.0.state && not (is_idle s) ≡ false

connected-goes_on :
    (k : Kind) (c : Client.Client)
    → is_connecting c.state ≡ true
    → (is_stopping (Client.connected k c).0.state ≡ false)
      × (is_idle (Client.connected k c).0.state ≡ false)
unfolding Client.connected
connected-goes_on (aprsc login) c h = ground arith
connected-goes_on gpsd c h = ground arith
connected-goes_on sbs c h = ground arith
connected-goes_on sensor c h = ground arith

pub handle-IsEnding :
    (e : Event) (c : Client.Client) → (e ≡ returns → ⊥) → IsEnding c.state (handle e c)
unfolding handle Client.run Client.stop Client.handle_connect Client.handle_login
    Client.handle_watch Client.handle_timed_connect Client.handle_keep_alive Client.handle_beacon
    Client.check_deadline
handle-IsEnding returns c h = absurd (h refl)
handle-IsEnding runs c h = ground arith
handle-IsEnding stops c h = ground arith
handle-IsEnding (connects success) c h = ground (arith, connected-goes_on c.kind c)
handle-IsEnding (connects failure) c h = ground arith
handle-IsEnding (logs_in e) c h = ground arith
handle-IsEnding (watches e) c h = ground arith
handle-IsEnding (wakes e) c h = ground arith
handle-IsEnding (keeps_alive e) c h = ground arith
handle-IsEnding (beacons e) c h = ground arith
handle-IsEnding (deadline e) c h = ground arith
handle-IsEnding (reads e response) c h = ground arith

module _ {F World : Type 0} (process : F → Str → World → World × Bool) where
  stop-IsEnding : (c : Client.Client) → IsEnding c.state (Client.stop c)
  unfolding Client.stop
  stop-IsEnding c = ground arith

  feed_all-IsEnding :
      (fs : List F) (response : Str) (w : World) (c : Client.Client)
      → IsEnding c.state (feed_all process fs response w c).1
  unfolding feed_all
  feed_all-IsEnding [] response w c = ground arith
  feed_all-IsEnding (f ∷ fs) response w c =
      let w' = (process f response w).0 in
      let after = (feed_all process fs response w' (Client.stop c).0).1.1 in
      ground (
        arith,
        stop-IsEnding c,
        feed_all-IsEnding fs response w' c,
        feed_all-IsEnding fs response w' (Client.stop c).0,
        has_stop-append (Client.stop c).1 after,
      )

  pub handle_read-IsEnding :
      (fs : List F) (e : ErrorCode) (response : Str) (w : World) (c : Client.Client)
      → IsEnding c.state (handle_read process fs e response w c).1
  unfolding handle_read
  handle_read-IsEnding fs success response w c = ground (
    arith,
    feed_all-IsEnding fs response w c,
    has_stop-append (feed_all process fs response w c).1.1 (read_actions c.kind),
  )
  handle_read-IsEnding fs failure response w c = ground arith
