-- ===== src/Client/Connector/Joint/Alive.antt =====
-- A client with its connector always waits for something that can still happen.
use virtual_flight_radar_bac.Common.{
  ◌+◌, ◌≤◌, ◌<◌, ◌≡◌, ◌≢◌, refl, ◌∙◌, Bool, true, false, ◌||◌, List, [], ◌∷◌, arith, if◌then◌else◌,
  ◌⊎◌, inl, inr, Bool-cases,
}
use virtual_flight_radar_bac.Common.Text.{Str}
use virtual_flight_radar_bac.Client
use virtual_flight_radar_bac.Client.{
  State, idle, connecting, running, stopping, Kind, aprsc, gpsd, sbs, sensor, ErrorCode, success,
  failure, Callback, on_connect, on_login, on_watch, on_timed_connect, on_read, on_keep_alive,
  on_beacon, on_deadline, on_watch_stopped, Action, connect, read, write, timeout, Result, feed_all,
  handle_read, read_actions, is_running, is_connecting, stop_prelude,
}
use virtual_flight_radar_bac.Client.Machine.{
  Event, runs, returns, stops, connects, logs_in, watches, wakes, keeps_alive, beacons, deadline,
  handle, step,
}
use virtual_flight_radar_bac.Client.Machine
use virtual_flight_radar_bac.Client.Connector.Joint.Summary.{
  Summary, add, act, act_all, act_all-append, reading, other,
}

-- While connecting, one operation is pending that goes on with it, and the socket is open for the
-- first write; while running, the socket is open and a read is pending.
pub record IsAlive (s : State) (n : Summary) : Type 0 where
  pub proper : n.improper ≡ 0
  pub single : n.reaching ≤ 1
  pub within : n.logging ≤ n.reaching
  pub reaches : s ≡ connecting → n.reaching ≡ 1
  pub opened : s ≡ connecting → 0 < n.logging → n.is_open ≡ true
  pub hears : s ≡ running → (n.is_open ≡ true) × (0 < n.reading) × (n.reaching ≡ 0)

-- What holds once the operation is taken that an event completes.
pub record IsDue (s : State) (n : Summary) : Type 0 where
  pub proper : n.improper ≡ 0
  pub none_left : n.reaching + n.logging ≡ 0
  pub not_running : s ≢ running

abbrev pub Before : Event → State → Summary → Type 0
Before (connects success) s n = IsDue s n × (n.is_open ≡ true)
Before (connects failure) s n = IsDue s n
Before (logs_in success) s n = IsDue s n × (s ≡ connecting → n.is_open ≡ true)
Before (logs_in failure) s n = IsDue s n
Before (watches success) s n = IsDue s n × (s ≡ connecting → n.is_open ≡ true)
Before (watches failure) s n = IsDue s n
Before (wakes e) s n = IsDue s n
Before (Machine.reads e response) s n = ⊥
Before runs s n = IsDue s n × (s ≡ idle)
Before returns s n = ⊥
Before stops s n = IsAlive s n
Before (keeps_alive e) s n = IsAlive s n
Before (beacons e) s n = IsAlive s n
Before (deadline e) s n = IsAlive s n

abbrev After : Summary → Result → Type 0
After n r = IsAlive r.0.state (act_all r.1 n)

act_all-read_actions : (k : Kind) (n : Summary) → act_all (read_actions k) n ≡ act read n
unfolding read_actions
act_all-read_actions (aprsc login) n = refl
act_all-read_actions gpsd n = refl
act_all-read_actions sbs n = refl
act_all-read_actions sensor n = refl

-- The end of a watch counts for nothing.
act_all-stop_prelude : (k : Kind) (s : State) (n : Summary) → act_all (stop_prelude k s) n ≡ n
act_all-stop_prelude (aprsc login) s n = refl
act_all-stop_prelude gpsd idle n = refl
act_all-stop_prelude gpsd connecting n = refl
act_all-stop_prelude gpsd running n = ground arith
act_all-stop_prelude gpsd stopping n = refl
act_all-stop_prelude sbs s n = refl
act_all-stop_prelude sensor s n = refl

abbrev stops_now : State → Bool
stops_now s = is_running s || is_connecting s

pub act_all-stop :
    (c : Client.Client) (n : Summary)
    → act_all (Client.stop c).1 n ≡ (if stops_now c.state then record n { is_open = false } else n)
unfolding Client.stop Client.stop_base
act_all-stop c n =
    act_all-append (stop_prelude c.kind c.state) (Client.stop_base c).1 n
    ∙ ground (arith, act_all-stop_prelude c.kind c.state n)

state-stop :
    (c : Client.Client)
    → (Client.stop c).0.state ≡ (if stops_now c.state then stopping else c.state)
unfolding Client.stop Client.stop_base
state-stop c = ground arith

connects-IsAlive :
    (n : Summary) (k : Kind) (c : Client.Client)
    → c.kind ≡ k
    → Before (connects success) c.state n
    → After n (handle (connects success) c)
unfolding handle Client.handle_connect
connects-IsAlive n (aprsc login) c e b = ground arith
connects-IsAlive n gpsd c e b = ground arith
connects-IsAlive n sbs c e b = ground arith
connects-IsAlive n sensor c e b = ground arith

pub handle-IsAlive :
    (n : Summary) (e : Event) (c : Client.Client) → Before e c.state n → After n (handle e c)
unfolding handle Client.run Client.handle_connect Client.handle_login Client.handle_watch
    Client.handle_timed_connect Client.handle_keep_alive Client.handle_beacon Client.check_deadline
handle-IsAlive n runs c b = ground arith
handle-IsAlive n returns c b = absurd b
handle-IsAlive n stops c b = ground (arith, act_all-stop c n, state-stop c)
handle-IsAlive n (connects success) c b = connects-IsAlive n c.kind c refl b
handle-IsAlive n (connects failure) c b = ground arith
handle-IsAlive n (logs_in success) c b = ground (arith, act_all-read_actions c.kind (add other n))
handle-IsAlive n (logs_in failure) c b = ground arith
handle-IsAlive n (watches success) c b = ground (arith, act_all-read_actions c.kind n)
handle-IsAlive n (watches failure) c b = ground arith
handle-IsAlive n (wakes success) c b = ground arith
handle-IsAlive n (wakes failure) c b = ground arith
handle-IsAlive n (keeps_alive success) c b = ground arith
handle-IsAlive n (keeps_alive failure) c b = ground arith
handle-IsAlive n (beacons success) c b = ground arith
handle-IsAlive n (beacons failure) c b = ground arith
handle-IsAlive n (deadline success) c b = ground arith
handle-IsAlive n (deadline failure) c b = ground arith
handle-IsAlive n (Machine.reads e response) c b = absurd b

abbrev closed : Summary → Summary
closed n = record n { is_open = false }

module _ {F World : Type 0} (process : F → Str → World → World × Bool) where
  -- What the feeds leave of a client that is stopping: it asks nothing more of its connector.
  feed_all-stopping :
      (fs : List F) (response : Str) (w : World) (c : Client.Client) (n : Summary)
      → c.state ≡ stopping
      → let r = (feed_all process fs response w c).1 in (r.0.state ≡ stopping) × (act_all r.1 n ≡ n)
  unfolding feed_all
  feed_all-stopping [] response w c n h = (h, refl)
  feed_all-stopping (f ∷ fs) response w c n h =
      let w' = (process f response w).0 in
      elim (Bool-cases (process f response w).1) [
        | inl on ↦ rw on (feed_all-stopping fs response w' c n h)
        | inr off ↦
            let rest = (feed_all process fs response w' (Client.stop c).0).1 in
            let same : act_all (Client.stop c).1 n ≡ n = ground (arith, act_all-stop c n) in
            let (state, neutral) =
              feed_all-stopping fs response w' (Client.stop c).0 n (ground (arith, state-stop c)) in
            rw off (state, act_all-append (Client.stop c).1 rest.1 n ∙ rw same neutral)
      ]

  -- A client that is running runs on and has asked nothing, or it is stopping and its socket closed.
  feed_all-running :
      (fs : List F) (response : Str) (w : World) (c : Client.Client) (n : Summary)
      → c.state ≡ running
      → let r = (feed_all process fs response w c).1 in
        ((r.0.state ≡ running) × (act_all r.1 n ≡ n))
        ⊎ ((r.0.state ≡ stopping) × (act_all r.1 n ≡ closed n))
  unfolding feed_all
  feed_all-running [] response w c n h = inl (h, refl)
  feed_all-running (f ∷ fs) response w c n h =
      let w' = (process f response w).0 in
      elim (Bool-cases (process f response w).1) [
        | inl on ↦ rw on (feed_all-running fs response w' c n h)
        | inr off ↦
            let rest = (feed_all process fs response w' (Client.stop c).0).1 in
            let shut : act_all (Client.stop c).1 n ≡ closed n = ground (arith, act_all-stop c n) in
            let (state, neutral) =
              feed_all-stopping fs response w' (Client.stop c).0 (closed n)
                (ground (arith, state-stop c)) in
            rw off (inr (state, act_all-append (Client.stop c).1 rest.1 n ∙ rw shut neutral))
      ]

  -- A read completes: it is taken off before.
  pub handle_read-IsAlive :
      (fs : List F) (e : ErrorCode) (response : Str) (w : World) (c : Client.Client) (n : Summary)
      → IsAlive c.state (add reading n)
      → After n (handle_read process fs e response w c).1
  unfolding handle_read
  handle_read-IsAlive fs failure response w c n a = ground arith
  handle_read-IsAlive fs success response w c n a = ground (
    arith,
    feed_all-running fs response w c n,
    act_all-append (feed_all process fs response w c).1.1 (read_actions c.kind) n,
    act_all-read_actions c.kind n,
    act_all-read_actions c.kind (closed n),
  )
