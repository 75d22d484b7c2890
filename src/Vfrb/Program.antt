-- ===== src/Vfrb/Program.antt =====
-- `run` of src/VFRB.cpp: the threads of the clients, the main loop, the server over its network
-- interface and the listener for signals, from the start of the program to its end. An exception that
-- nothing catches ends the program, and there is no state after it.
pub mod Well
pub mod Course
pub mod End
pub mod Loop
pub mod Always
pub mod Texts
use mathlib.Core.Option
use virtual_flight_radar_bac.Common.{
  ℕ, Bool, true, false, Option, none, some, List, [], ◌∷◌, if◌then◌else◌,
}
use virtual_flight_radar_bac.Common.Int.{ℤ}
use virtual_flight_radar_bac.Common.Text.{Str}
use virtual_flight_radar_bac.Double.{Double}
use virtual_flight_radar_bac.Data.Processor.GpsProcessor.{Tm}
use virtual_flight_radar_bac.Feed.Parser.Regex.{Regexes}
use virtual_flight_radar_bac.Feed.Feeds.{Feed}
use virtual_flight_radar_bac.Feed.Factory.{FeedClass}
use virtual_flight_radar_bac.Client.Manager.{Member, FeedInfo, subscribe_all}
use virtual_flight_radar_bac.Client.Manager.Threads
use virtual_flight_radar_bac.Client.Manager.Threads.{Fleet, threads_of}
use virtual_flight_radar_bac.Server
use virtual_flight_radar_bac.Server.Interface
use virtual_flight_radar_bac.Server.Interface.{Socket, Interface, write}
use virtual_flight_radar_bac.Server.Net
use virtual_flight_radar_bac.Server.Net.{Net, settle}
use virtual_flight_radar_bac.Signals
use virtual_flight_radar_bac.Signals.{Signal, SignalListener, add_handler, next_call}
use virtual_flight_radar_bac.Vfrb.{Vfrb, serve_round}
use virtual_flight_radar_bac.Vfrb.System.{Moment, process}

abbrev pub AnyFeed : Type 0
AnyFeed = FeedClass × Feed

-- The containers and the server, and what the clocks show.
pub record Site (W : Type 0) : Type 0 where
  pub vfrb : Vfrb W Socket
  pub moment : Moment W

-- `running` is `m_running`; `begun` is the thread of the server, as in Server.Net. The listener has
-- one handler.
pub record Program (W : Type 0) : Type 0 where
  pub fleet : Fleet AnyFeed (Site W)
  pub interface : Interface
  pub begun : Bool
  pub signals : SignalListener (Unit {0})
  pub running : Bool

-- What can happen while the program runs: to the threads of the clients; to the server, whose thread
-- begins, for which an accept is done or refused, and which handles one; a pass of the main loop; time;
-- a signal; and a call of its handler.
pub data Happening (W : Type 0) : Type 0 where
  in_fleet : Threads.Event → Happening W
  accepts refuses handles : Happening W
  arrives : Option Str → Happening W
  round : (Socket → Str → Bool) → Tm → Happening W
  ticks : Moment W → Happening W
  raises : Signal → Happening W
  catches : Happening W

module _ {W : Type 0} where
  abbrev pub at_site : (Vfrb W Socket → Vfrb W Socket) → Program W → Program W
  at_site change p = record p {
    fleet = record p.fleet { world = record p.fleet.world { vfrb = change p.fleet.world.vfrb } };
  }

  -- The server with its interface.
  abbrev pub net_of : Program W → Net
  net_of p = record { server = p.fleet.world.vfrb.server; interface = p.interface; begun = p.begun }

  abbrev pub put_net : Program W → Net → Program W
  put_net p n = record (at_site (λ v. record v { server = n.server }) p) {
    interface = n.interface;
    begun = n.begun;
  }

  unfoldable pub on_net : Net.Event → Program W → Option (Program W)
  on_net e p = elim (Net.step e (net_of p)) [ none ↦ none | some n ↦ some (put_net p n) ]

  -- The handler of the signals ends the main loop.
  unfoldable pub catch_signal : Program W → Program W
  catch_signal p =
      let (signals, call) = next_call p.signals in
      record p { signals = signals; running = elim call [ none ↦ p.running | some c ↦ false ] }

module _ {W : Type 0} ⦃d : Double W⦄ (re : Regexes) (max_height : ℤ) where
  -- What a feed does with a line.
  unfoldable pub takes_line : AnyFeed → Str → Site W → Site W × Bool
  takes_line (c, f) response s =
      let (v, goes_on) = process re max_height s.moment c f response s.vfrb in
      (record s { vfrb = v }, goes_on)

  -- A pass of the loop of `serve` first looks at `m_running`.
  unfoldable pub step : Happening W → Program W → Option (Program W)
  unfolding takes_line on_net catch_signal
  step (in_fleet e) p = some (record p { fleet = Threads.step takes_line e p.fleet })
  step accepts p = on_net Net.begins p
  step refuses p = on_net Net.refuses p
  step handles p = on_net Net.handles p
  step (arrives peer) p = on_net (Net.arrives peer) p
  step (round takes utc) p =
      some (if p.running then at_site (serve_round (write takes) utc) p else p)
  step (ticks m) p =
      some (record p { fleet = record p.fleet { world = record p.fleet.world { moment = m } } })
  step (raises s) p = some (record p { signals = Signals.raise s p.signals })
  step catches p = some (catch_signal p)

  unfoldable pub run_all : List (Happening W) → Program W → Option (Program W)
  unfolding step
  run_all [] p = some p
  run_all (h ∷ hs) p = elim (step h p) [ none ↦ none | some p' ↦ run_all hs p' ]

  -- Up to `serve`: the listener has its handler, the feeds are subscribed, and the listener, the
  -- server and the clients run.
  unfoldable pub start :
      (ℕ → Str → ℕ) → (AnyFeed → FeedInfo) → List AnyFeed → Moment W → Vfrb W Socket → Program W
  start combine info feeds m v = record {
    fleet = record {
      world = record { vfrb = record v { server = (Server.run v.server).0 }; moment = m };
      threads = threads_of (subscribe_all combine info [] feeds);
    };
    interface = Interface.initial;
    begun = false;
    signals = Signals.run (add_handler tt Signals.initial);
    running = true;
  }

  -- What follows `serve`: the clients are stopped, then the server, and then the listener.
  unfoldable pub finish : ℕ → Program W → Program W
  unfolding takes_line
  finish now p =
      let p' = record p { fleet = Threads.stop takes_line now p.fleet } in
      let n = net_of p' in
      record (put_net p' (settle n n.interface (Server.stop n.server))) {
        signals = Signals.stop p.signals;
      }
