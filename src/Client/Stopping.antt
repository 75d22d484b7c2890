-- ===== src/Client/Stopping.antt =====
-- What a client does once it is told to stop.
use virtual_flight_radar_bac.Common.{◌≡◌, refl, ◌≢◌, Bool, List, [], arith}
use virtual_flight_radar_bac.Common.Text.{Str}
use virtual_flight_radar_bac.Client
use virtual_flight_radar_bac.Client.{
  State, idle, connecting, running, stopping, Kind, ErrorCode, success, failure, handle_read,
  is_running, is_connecting,
}
use virtual_flight_radar_bac.Client.Machine.{
  Event, runs, returns, stops, connects, logs_in, watches, wakes, keeps_alive, beacons, deadline,
  reads, handle, step,
}

handle-stopping :
    (e : Event) (c : Client.Client)
    → e ≢ returns
    → e ≢ wakes success
    → c.state ≡ stopping
    → handle e c ≡ (c, [])
unfolding handle Client.run Client.stop Client.handle_connect Client.handle_login
    Client.handle_watch Client.handle_timed_connect Client.handle_keep_alive Client.handle_beacon
    Client.check_deadline
handle-stopping returns c r w h = absurd (r refl)
handle-stopping (wakes success) c r w h = absurd (w refl)
handle-stopping (wakes failure) c r w h = ground arith
handle-stopping runs c r w h = ground arith
handle-stopping stops c r w h = ground arith
handle-stopping (connects success) c r w h = ground arith
handle-stopping (connects failure) c r w h = ground arith
handle-stopping (logs_in success) c r w h = ground arith
handle-stopping (logs_in failure) c r w h = ground arith
handle-stopping (watches success) c r w h = ground arith
handle-stopping (watches failure) c r w h = ground arith
handle-stopping (keeps_alive success) c r w h = ground arith
handle-stopping (keeps_alive failure) c r w h = ground arith
handle-stopping (beacons success) c r w h = ground arith
handle-stopping (beacons failure) c r w h = ground arith
handle-stopping (deadline success) c r w h = ground arith
handle-stopping (deadline failure) c r w h = ground arith
handle-stopping (reads e response) c r w h = refl

module _ {F World : Type 0} (process : F → Str → World → World × Bool) where
  -- A client that is stopping answers nothing that still completes: it keeps its state, calls
  -- nothing and hands nothing to its feeds, until the connector's loop ends. The one exception is
  -- the timer before the next attempt to connect.
  pub step-stopping :
      (fs : List F) (e : Event) (w : World) (c : Client.Client)
      → e ≢ returns
      → e ≢ wakes success
      → c.state ≡ stopping
      → step process fs e w c ≡ (w, (c, []))
  unfolding step handle_read
  step-stopping fs (reads success response) w c r t h = ground arith
  step-stopping fs (reads failure response) w c r t h = ground arith
  step-stopping fs runs w c r t h = rw (handle-stopping runs c r t h)
  step-stopping fs returns w c r t h = absurd (r refl)
  step-stopping fs stops w c r t h = rw (handle-stopping stops c r t h)
  step-stopping fs (connects e) w c r t h = rw (handle-stopping (connects e) c r t h)
  step-stopping fs (logs_in e) w c r t h = rw (handle-stopping (logs_in e) c r t h)
  step-stopping fs (watches e) w c r t h = rw (handle-stopping (watches e) c r t h)
  step-stopping fs (wakes e) w c r t h = rw (handle-stopping (wakes e) c r t h)
  step-stopping fs (keeps_alive e) w c r t h = rw (handle-stopping (keeps_alive e) c r t h)
  step-stopping fs (beacons e) w c r t h = rw (handle-stopping (beacons e) c r t h)
  step-stopping fs (deadline e) w c r t h = rw (handle-stopping (deadline e) c r t h)
