-- ===== src/Client/Pending.antt =====
-- A client that is connecting or running always waits for some completion.
use virtual_flight_radar_bac.Common.{
  ℕ, ◌+◌, ◌-◌, ◌≤◌, ◌<◌, ◌≡◌, refl, Bool, true, false, List, [], ◌∷◌, ◌++◌, arith, if◌then◌else◌,
}
use virtual_flight_radar_bac.Common.Text.{Str}
use virtual_flight_radar_bac.Client
use virtual_flight_radar_bac.Client.{
  State, idle, connecting, running, stopping, Kind, aprsc, gpsd, sbs, sensor, ErrorCode, success,
  failure, on_login, on_watch, on_timed_connect, Action, connect, read, write, timeout, Result,
  feed_all, handle_read, read_actions, is_idle, is_running, is_connecting, is_stopping,
}
use virtual_flight_radar_bac.Client.Machine.{
  Event, runs, returns, stops, connects, logs_in, watches, wakes, keeps_alive, beacons, deadline,
  reads, handle, step, feed_all-running,
}

-- The calls of a list of actions whose completion goes on with connecting, and the reads.
abbrev pub is_connect : Action → Bool
is_connect connect = true
is_connect (write s on_login) = true
is_connect (write s on_watch) = true
is_connect (timeout on_timed_connect n) = true
is_connect _ = false

abbrev pub is_read : Action → Bool
is_read read = true
is_read _ = false

abbrev pub count : (Action → Bool) → List Action → ℕ
count p [] = 0
count p (a ∷ rest) = (if p a then 1 else 0) + count p rest

pub count-append :
    (p : Action → Bool) (xs ys : List Action) → count p (xs ++ ys) ≡ count p xs + count p ys
count-append p [] ys = omega arith
count-append p (x ∷ xs) ys = omega (arith, count-append p xs ys)

-- A client, and how many completions of the two sorts are outstanding.
pub record System (World : Type 0) : Type 0 where
  pub client : Client.Client
  pub world : World
  pub to_connect : ℕ
  pub to_read : ℕ

abbrev pub takes_connect : Event → ℕ
takes_connect (connects e) = 1
takes_connect (logs_in e) = 1
takes_connect (watches e) = 1
takes_connect (wakes e) = 1
takes_connect _ = 0

abbrev pub takes_read : Event → ℕ
takes_read (reads e response) = 1
takes_read _ = 0

pub record IsAlive (client : Client.Client) (to_connect to_read : ℕ) : Type 0 where
  pub reaches : client.state ≡ connecting → 0 < to_connect
  pub hears : client.state ≡ running → 0 < to_read

-- A completion uses up one outstanding call.
abbrev pub IsPossible : {World : Type 0} → System World → Event → Type 0
IsPossible s e = (takes_connect e ≤ s.to_connect) × (takes_read e ≤ s.to_read)

-- What is outstanding after a handler.
abbrev left : (Action → Bool) → ℕ → ℕ → Result → ℕ
left p n taken r = n - taken + count p r.1

abbrev Serves : ℕ → ℕ → Event → Client.Client → Result → Type 0
Serves n m e c r =
    IsAlive c n m
    → takes_connect e ≤ n
    → takes_read e ≤ m
    → IsAlive r.0 (left is_connect n (takes_connect e) r) (left is_read m (takes_read e) r)

handle-Serves_connects :
    (n m : ℕ) (k : Kind) (c : Client.Client)
    → c.kind ≡ k
    → Serves n m (connects success) c (handle (connects success) c)
unfolding handle Client.handle_connect
handle-Serves_connects n m (aprsc login) c e = ground arith
handle-Serves_connects n m gpsd c e = ground arith
handle-Serves_connects n m sbs c e = ground arith
handle-Serves_connects n m sensor c e = ground arith

handle-Serves :
    (n m : ℕ) (e : Event) (c : Client.Client) → takes_read e ≡ 0 → Serves n m e c (handle e c)
unfolding handle Client.run Client.run_returns Client.stop Client.handle_connect Client.handle_login
    Client.handle_watch Client.handle_timed_connect Client.handle_keep_alive Client.handle_beacon
    Client.check_deadline
handle-Serves n m runs c z = ground arith
handle-Serves n m returns c z = ground arith
handle-Serves n m stops c z = ground arith
handle-Serves n m (connects success) c z = handle-Serves_connects n m c.kind c refl
handle-Serves n m (connects failure) c z = ground arith
handle-Serves n m (logs_in success) c z = ground arith
handle-Serves n m (logs_in failure) c z = ground arith
handle-Serves n m (watches success) c z = ground arith
handle-Serves n m (watches failure) c z = ground arith
handle-Serves n m (wakes success) c z = ground arith
handle-Serves n m (wakes failure) c z = ground arith
handle-Serves n m (keeps_alive success) c z = ground arith
handle-Serves n m (keeps_alive failure) c z = ground arith
handle-Serves n m (beacons success) c z = ground arith
handle-Serves n m (beacons failure) c z = ground arith
handle-Serves n m (deadline success) c z = ground arith
handle-Serves n m (deadline failure) c z = ground arith
handle-Serves n m (reads e response) c z = cc

module _ {F World : Type 0} (process : F → Str → World → World × Bool) where
  read_actions-count : (k : Kind) → count is_read (read_actions k) ≡ 1
  unfolding read_actions
  read_actions-count (aprsc login) = refl
  read_actions-count gpsd = refl
  read_actions-count sbs = refl
  read_actions-count sensor = refl

  handle_read-Serves :
      (fs : List F) (n m : ℕ) (e : ErrorCode) (response : Str) (w : World) (c : Client.Client)
      → Serves n m (reads e response) c (handle_read process fs e response w c).1
  unfolding handle_read
  handle_read-Serves fs n m success response w c = ground (
    arith,
    feed_all-running process fs response w c,
    read_actions-count c.kind,
    count-append is_read (feed_all process fs response w c).1.1 (read_actions c.kind),
  )
  handle_read-Serves fs n m failure response w c = ground arith

  unfoldable pub next : List F → Event → System World → System World
  next fs e s =
      let (w, (c, actions)) = step process fs e s.world s.client in
      record {
        client = c;
        world = w;
        to_connect = s.to_connect - takes_connect e + count is_connect actions;
        to_read = s.to_read - takes_read e + count is_read actions;
      }

  abbrev pub AliveSystem : System World → Type 0
  AliveSystem s = IsAlive s.client s.to_connect s.to_read

  next-IsAlive :
      (fs : List F) (e : Event) (s : System World)
      → IsPossible s e
      → AliveSystem s
      → AliveSystem (next fs e s)
  unfolding next step
  next-IsAlive fs (reads e response) s p a =
      handle_read-Serves fs s.to_connect s.to_read e response s.world s.client a p.0 p.1
  next-IsAlive fs runs s p a = handle-Serves s.to_connect s.to_read runs s.client refl a p.0 p.1
  next-IsAlive fs returns s p a =
      handle-Serves s.to_connect s.to_read returns s.client refl a p.0 p.1
  next-IsAlive fs stops s p a = handle-Serves s.to_connect s.to_read stops s.client refl a p.0 p.1
  next-IsAlive fs (connects e) s p a =
      handle-Serves s.to_connect s.to_read (connects e) s.client refl a p.0 p.1
  next-IsAlive fs (logs_in e) s p a =
      handle-Serves s.to_connect s.to_read (logs_in e) s.client refl a p.0 p.1
  next-IsAlive fs (watches e) s p a =
      handle-Serves s.to_connect s.to_read (watches e) s.client refl a p.0 p.1
  next-IsAlive fs (wakes e) s p a =
      handle-Serves s.to_connect s.to_read (wakes e) s.client refl a p.0 p.1
  next-IsAlive fs (keeps_alive e) s p a =
      handle-Serves s.to_connect s.to_read (keeps_alive e) s.client refl a p.0 p.1
  next-IsAlive fs (beacons e) s p a =
      handle-Serves s.to_connect s.to_read (beacons e) s.client refl a p.0 p.1
  next-IsAlive fs (deadline e) s p a =
      handle-Serves s.to_connect s.to_read (deadline e) s.client refl a p.0 p.1

  -- The systems that a new client can come to.
  pub data Reach (fs : List F) (k : Kind) (w : World) : System World → Type 0 where
    here : Reach fs k w (record {
      client = record { kind = k; state = idle };
      world = w;
      to_connect = 0;
      to_read = 0;
    })
    after :
        {s : System World} (e : Event)
        → Reach fs k w s
        → IsPossible s e
        → Reach fs k w (next fs e s)

  -- Whatever happens to a new client, each completion being that of an outstanding call: while it is
  -- connecting a call is outstanding that goes on with it, and while it is running a read is
  -- outstanding, so that it never waits for nothing.
  pub Reach-IsAlive :
      {fs : List F} {k : Kind} {w : World} {s : System World} → Reach fs k w s → AliveSystem s
  Reach-IsAlive here = record { reaches = λ e. cc; hears = λ e. cc }
  Reach-IsAlive (after e r p) = next-IsAlive _ e _ p (Reach-IsAlive r)
