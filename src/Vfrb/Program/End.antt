-- ===== src/Vfrb/Program/End.antt =====
-- How the program ends.
use virtual_flight_radar_bac.Common.{
  ℕ, ◌≡◌, refl, true, false, Option, none, some, List, [], All, arith,
}
use virtual_flight_radar_bac.Common.Int.{ℤ}
use virtual_flight_radar_bac.Common.Text.{Str}
use virtual_flight_radar_bac.Double.{Double}
use virtual_flight_radar_bac.Data.AircraftData.Runs
use virtual_flight_radar_bac.Data.Processor.GpsProcessor.{Tm}
use virtual_flight_radar_bac.Feed.Parser.Regex.{Regexes}
use virtual_flight_radar_bac.Client.Manager.{FeedInfo}
use virtual_flight_radar_bac.Client.Manager.Threads
use virtual_flight_radar_bac.Client.Manager.Threads.{Thread}
use virtual_flight_radar_bac.Client.Manager.Threads.Join.{HasBegun, IsErased, stop-IsErased}
use virtual_flight_radar_bac.Client.Manager.Threads.World.{stop-keeps_any}
use virtual_flight_radar_bac.Config.{Configuration}
use virtual_flight_radar_bac.Server
use virtual_flight_radar_bac.Server.Interface
use virtual_flight_radar_bac.Server.Interface.{Socket, perform, perform_all}
use virtual_flight_radar_bac.Server.Net.{Net, settle}
use virtual_flight_radar_bac.Server.Slots.{live, reset_all-live}
use virtual_flight_radar_bac.Signals
use virtual_flight_radar_bac.Signals.{joined}
use virtual_flight_radar_bac.Vfrb.{of_configuration}
use virtual_flight_radar_bac.Vfrb.System.{Moment}
use virtual_flight_radar_bac.Vfrb.System.Fit.{IsLow}
use virtual_flight_radar_bac.Vfrb.Program.{
  AnyFeed, Program, Happening, net_of, takes_line, run_all, start, finish,
}
use virtual_flight_radar_bac.Vfrb.Program.Well.{
  IsKeeping, takes_line-IsKeeping, IsWell, IsPossible, start-IsWell,
}
use virtual_flight_radar_bac.Vfrb.Program.Course.{run_all-IsWell}

stop-live :
    (n : Net)
    → n.server.running ≡ true
    → let n' = settle n n.interface (Server.stop n.server) in
      (live n'.server.connections ≡ 0)
      × (n'.server.running ≡ false)
      × (n'.interface.is_stopped ≡ true)
      × (n'.interface.is_accepting ≡ false)
unfolding Server.stop perform_all perform Interface.stop
stop-live n h = ground (arith, h, reset_all-live n.server.connections)

module _ {W : Type 0} where
  -- The threads of a program that is still there.
  abbrev pub threads_after : Option (Program W) → List (Thread AnyFeed)
  threads_after none = []
  threads_after (some p) = p.fleet.threads

module _ {W : Type 0} ⦃d : Double W⦄ where
  -- Everything has ended: the threads of the clients, of the server and of the listener.
  pub record HasEnded (p : Program W) : Type 0 where
    pub erased : All IsErased p.fleet.threads
    pub nobody : live p.fleet.world.vfrb.server.connections ≡ 0
    pub server_ended : p.fleet.world.vfrb.server.running ≡ false
    pub queue_stopped : p.interface.is_stopped ≡ true
    pub closed : p.interface.is_accepting ≡ false
    pub listener_ended : p.signals.thread ≡ joined

  finish-HasEnded :
      (re : Regexes) (max_height : ℤ) (now : ℕ) (p : Program W)
      → IsWell re max_height p
      → All HasBegun p.fleet.threads
      → let q = finish re max_height now p in
        HasEnded q
        × Runs.IsSound q.fleet.world.vfrb.aircraft_data
        × All (IsLow max_height) q.fleet.world.vfrb.aircraft_data.container
  unfolding finish Signals.stop
  finish-HasEnded re max_height now p w begun =
      let server = p.fleet.world.vfrb.server in
      let k =
        stop-keeps_any (takes_line re max_height) (IsKeeping re max_height server)
          (takes_line-IsKeeping re max_height server) now p.fleet
          (record { sane = w.sane; same = refl }) in
      let stopped = record p { fleet = Threads.stop (takes_line re max_height) now p.fleet } in
      let (nobody, server_ended, queue_stopped, closed) =
        stop-live (net_of stopped) (rw k.same w.serving) in
      (
        record {
          erased = stop-IsErased (takes_line re max_height) now p.fleet w.kept begun;
          nobody = nobody;
          server_ended = server_ended;
          queue_stopped = queue_stopped;
          closed = closed;
          listener_ended = rw w.listening refl;
        },
        k.sane.aircraft.sound,
        k.sane.aircraft.low,
      )

module _ {W P : Type 0} ⦃d : Double W⦄ where
  -- Whatever happens to a program that runs on a configuration, its clients, its server and the
  -- network, where no client of the server is gone before its address has been asked for: the
  -- exception of `remote_endpoint` does not end it. Once every thread of a client has begun, it comes
  -- to its end: every thread has come back and erased its client, nobody is connected to the server, which is stopped, with its event queue and without
  -- an acceptor, the thread of the listener for signals has been joined, and the container of the
  -- aircraft is sound, without an aircraft higher than the configuration allows.
  pub finish-run_all :
      (re : Regexes) (utc : Tm) (c : Configuration W P) (combine : ℕ → Str → ℕ)
      (info : AnyFeed → FeedInfo) (feeds : List AnyFeed) (m : Moment W) (hs : List (Happening W))
      (now : ℕ)
      → All (IsPossible re c.max_height) hs
      → All HasBegun (
          threads_after (
            run_all re c.max_height hs
              (start re c.max_height combine info feeds m (of_configuration utc c))))
      → (p : Program W) × (run_all re c.max_height hs
            (start re c.max_height combine info feeds m (of_configuration utc c))
          ≡ some p)
        × HasEnded (finish re c.max_height now p)
        × Runs.IsSound (finish re c.max_height now p).fleet.world.vfrb.aircraft_data
        × All
            (IsLow c.max_height)
            (finish re c.max_height now p).fleet.world.vfrb.aircraft_data.container
  finish-run_all re utc c combine info feeds m hs now possible begun =
      let (p, e, w) =
        run_all-IsWell re c.max_height hs _ possible (start-IsWell re utc c combine info feeds m) in
      let (ended, sound, low) = finish-HasEnded re c.max_height now p w (rw e at begun) in
      (p, e, ended, sound, low)
