-- ===== src/Vfrb/Program/Well.antt =====
-- What holds of a program at any time, and what a line that comes in keeps.
use virtual_flight_radar_bac.Common.{ℕ, ◌≡◌, refl, ◌∙◌, Bool, true, List, [], All}
use virtual_flight_radar_bac.Common.Int.{ℤ}
use virtual_flight_radar_bac.Common.Text.{Str}
use virtual_flight_radar_bac.Double.{Double}
use virtual_flight_radar_bac.Data.Processor.GpsProcessor.{Tm}
use virtual_flight_radar_bac.Feed.Parser.Regex.{Regexes}
use virtual_flight_radar_bac.Client.Manager.{FeedInfo, subscribe_all}
use virtual_flight_radar_bac.Client.Manager.Threads.Join.{IsKept, threads_of-IsKept}
use virtual_flight_radar_bac.Config.{Configuration}
use virtual_flight_radar_bac.Feed.Feeds.{Feed}
use virtual_flight_radar_bac.Feed.Factory.{
  FeedClass, aprsc_feed, sbs_feed, gps_feed, wind_feed, atmosphere_feed,
}
use virtual_flight_radar_bac.Server
use virtual_flight_radar_bac.Server.Interface
use virtual_flight_radar_bac.Server.Interface.{Socket, write}
use virtual_flight_radar_bac.Server.Net
use virtual_flight_radar_bac.Server.Net.{Net}
use virtual_flight_radar_bac.Server.Net.Sound.{IsSound}
use virtual_flight_radar_bac.Server.Net.Reach.{HasPeer, start-IsSound}
use virtual_flight_radar_bac.Signals
use virtual_flight_radar_bac.Signals.{SignalListener, started, add_handler, raise, next_call}
use virtual_flight_radar_bac.Vfrb.{Vfrb, of_configuration, serve_round, message}
use virtual_flight_radar_bac.Vfrb.System.{Moment, process}
use virtual_flight_radar_bac.Vfrb.System.Reach.{IsSane, process-IsSane, of_configuration-IsSane}
use virtual_flight_radar_bac.Vfrb.Program.{
  AnyFeed, Site, Program, Happening, arrives, net_of, takes_line, start,
}

module _ {W : Type 0} ⦃d : Double W⦄ where
  pub process-server :
      (re : Regexes) (max_height : ℤ) (m : Moment W) (c : FeedClass) (f : Feed) (s : Str)
      (v : Vfrb W Socket)
      → (process re max_height m c f s v).0.server ≡ v.server
  unfolding process
  process-server re max_height m aprsc_feed f s v = refl
  process-server re max_height m sbs_feed f s v = refl
  process-server re max_height m gps_feed f s v = refl
  process-server re max_height m wind_feed f s v = refl
  process-server re max_height m atmosphere_feed f s v = refl

  pub serve_round-server :
      (takes : Socket → Str → Server.Answer Bool) (utc : Tm) (v : Vfrb W Socket)
      → (serve_round takes utc v).server ≡ Server.send takes (message utc v).1 v.server
  unfolding serve_round message
  serve_round-server takes utc v = refl

module _ {W : Type 0} ⦃d : Double W⦄ (re : Regexes) (max_height : ℤ) where
  -- The containers are sane, and the server is the given one.
  pub record IsKeeping (server : Server.Server Socket) (s : Site W) : Type 0 where
    pub sane : IsSane max_height s.vfrb
    pub same : s.vfrb.server ≡ server

  pub takes_line-IsKeeping :
      (server : Server.Server Socket) (f : AnyFeed) (s : Str) (w : Site W)
      → IsKeeping server w
      → IsKeeping server (takes_line re max_height f s w).0
  unfolding takes_line
  takes_line-IsKeeping server f s w h = record {
    sane = process-IsSane max_height re w.moment f.0 f.1 s w.vfrb h.sane;
    same = process-server re max_height w.moment f.0 f.1 s w.vfrb ∙ h.same;
  }

  pub record IsWell (p : Program W) : Type 0 where
    pub sane : IsSane max_height p.fleet.world.vfrb
    pub sound : IsSound (net_of p)
    pub serving : p.fleet.world.vfrb.server.running ≡ true
    pub kept : All IsKept p.fleet.threads
    pub listening : p.signals.thread ≡ started

  -- No client is gone before its address has been asked for.
  abbrev pub IsPossible : Happening W → Type 0
  IsPossible (arrives peer) = HasPeer (Net.arrives peer)
  IsPossible _ = Unit {0}

module _ {W P : Type 0} ⦃d : Double W⦄ where
  pub start-IsWell :
      (re : Regexes) (utc : Tm) (c : Configuration W P) (combine : ℕ → Str → ℕ)
      (info : AnyFeed → FeedInfo) (feeds : List AnyFeed) (m : Moment W)
      → IsWell re c.max_height (start re c.max_height combine info feeds m (of_configuration utc c))
  unfolding start of_configuration Server.initial Server.run Net.start Interface.initial add_handler
      Signals.run Signals.initial
  start-IsWell re utc c combine info feeds m =
      let s = of_configuration-IsSane {S = Socket} utc c in
      record {
        sane = record {
          aircraft = s.aircraft;
          server = start-IsSound.valid;
          unlocked = s.unlocked;
        };
        sound = start-IsSound;
        serving = refl;
        kept = threads_of-IsKept (subscribe_all combine info [] feeds);
        listening = refl;
      }
