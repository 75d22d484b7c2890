-- ===== src/Vfrb/Program/Course.antt =====
-- What holds while the program runs.
use virtual_flight_radar_bac.Common.{
  ◌≡◌, refl, ◌∙◌, Bool, some, List, [], ◌∷◌, All, Bool-cases, inl, inr,
}
use virtual_flight_radar_bac.Common.Int.{ℤ}
use virtual_flight_radar_bac.Common.Text.{Str}
use virtual_flight_radar_bac.Double.{Double}
use virtual_flight_radar_bac.Data.Processor.GpsProcessor.{Tm}
use virtual_flight_radar_bac.Feed.Parser.Regex.{Regexes}
use virtual_flight_radar_bac.Client.Manager.Threads
use virtual_flight_radar_bac.Client.Manager.Threads.Join.{fleet-IsKept}
use virtual_flight_radar_bac.Client.Manager.Threads.World.{fleet-keeps_any}
use virtual_flight_radar_bac.Server.Interface.{Socket, write}
use virtual_flight_radar_bac.Server.Net
use virtual_flight_radar_bac.Server.Net.{Net}
use virtual_flight_radar_bac.Server.Net.Calls.{send-running}
use virtual_flight_radar_bac.Server.Net.Running.{IsStop, step-running}
use virtual_flight_radar_bac.Server.Net.Reach.{HasPeer, step-IsSound, sends-IsSound}
use virtual_flight_radar_bac.Signals.Waits.{raise-rest, next_call-thread}
use virtual_flight_radar_bac.Vfrb.{serve_round, message}
use virtual_flight_radar_bac.Vfrb.System.Reach.{serve_round-IsSane}
use virtual_flight_radar_bac.Vfrb.Program.{
  Program, Happening, in_fleet, accepts, refuses, handles, arrives, round, ticks, raises, catches,
  net_of, put_net, on_net, catch_signal, at_site, takes_line, step, run_all,
}
use virtual_flight_radar_bac.Vfrb.Program.Well.{
  serve_round-server, IsKeeping, takes_line-IsKeeping, IsWell, IsPossible,
}

module _ {W : Type 0} ⦃d : Double W⦄ (re : Regexes) (max_height : ℤ) where
  -- An event of the server alone.
  on_net-IsWell :
      (e : Net.Event) (p : Program W)
      → HasPeer e
      → ¬ IsStop e
      → IsWell re max_height p
      → (p' : Program W) × (on_net e p ≡ some p') × IsWell re max_height p'
  unfolding on_net
  on_net-IsWell e p h other w =
      let (n, eq, sound) = step-IsSound e (net_of p) h w.sound in
      (
        put_net p n,
        rw (eq, on_net) refl,
        record {
          sane = record {
            aircraft = w.sane.aircraft;
            server = sound.valid;
            unlocked = w.sane.unlocked;
          };
          sound = sound;
          serving = step-running e (net_of p) n other eq ∙ w.serving;
          kept = w.kept;
          listening = w.listening;
        },
      )

  in_fleet-IsWell :
      (e : Threads.Event) (p : Program W)
      → IsWell re max_height p
      → IsWell re max_height
          (record p { fleet = Threads.step (takes_line re max_height) e p.fleet })
  in_fleet-IsWell e p w =
      let server = p.fleet.world.vfrb.server in
      let k =
        fleet-keeps_any (takes_line re max_height) (IsKeeping re max_height server)
          (takes_line-IsKeeping re max_height server) e p.fleet
          (record { sane = w.sane; same = refl }) in
      record {
        sane = k.sane;
        sound = rw k.same w.sound;
        serving = rw k.same w.serving;
        kept = fleet-IsKept (takes_line re max_height) e p.fleet w.kept;
        listening = w.listening;
      }

  round-IsWell :
      (takes : Socket → Str → Bool) (utc : Tm) (p : Program W)
      → IsWell re max_height p
      → IsWell re max_height (at_site (serve_round (write takes) utc) p)
  round-IsWell takes utc p w =
      let v = p.fleet.world.vfrb in
      let text = (message utc v).1 in
      record {
        sane = serve_round-IsSane max_height (write takes) utc v w.sane;
        sound =
            rw (serve_round-server (write takes) utc v)
              (sends-IsSound (write takes) text (net_of p) w.sound);
        serving =
            rw (serve_round-server (write takes) utc v)
              (send-running (write takes) text v.server ∙ w.serving);
        kept = w.kept;
        listening = w.listening;
      }

  step-IsWell :
      (h : Happening W) (p : Program W)
      → IsPossible re max_height h
      → IsWell re max_height p
      → (p' : Program W) × (step re max_height h p ≡ some p') × IsWell re max_height p'
  unfolding step catch_signal
  step-IsWell (in_fleet e) p o w = (_, refl, in_fleet-IsWell e p w)
  step-IsWell accepts p o w = on_net-IsWell Net.begins p tt (λ s. s) w
  step-IsWell refuses p o w = on_net-IsWell Net.refuses p tt (λ s. s) w
  step-IsWell handles p o w = on_net-IsWell Net.handles p tt (λ s. s) w
  step-IsWell (arrives peer) p o w = on_net-IsWell (Net.arrives peer) p o (λ s. s) w
  step-IsWell (round takes utc) p o w = elim (Bool-cases p.running) [
    | inl runs ↦ (_, rw (runs, step) refl, round-IsWell takes utc p w)
    | inr ended ↦ (p, rw (ended, step) refl, w)
  ]
  step-IsWell (ticks m) p o w = (
    _,
    refl,
    record {
      sane = w.sane;
      sound = w.sound;
      serving = w.serving;
      kept = w.kept;
      listening = w.listening;
    },
  )
  step-IsWell (raises s) p o w = (
    _,
    refl,
    record {
      sane = w.sane;
      sound = w.sound;
      serving = w.serving;
      kept = w.kept;
      listening = (raise-rest s p.signals).1 ∙ w.listening;
    },
  )
  step-IsWell catches p o w = (
    _,
    refl,
    record {
      sane = w.sane;
      sound = w.sound;
      serving = w.serving;
      kept = w.kept;
      listening = next_call-thread p.signals ∙ w.listening;
    },
  )

  pub run_all-IsWell :
      (hs : List (Happening W)) (p : Program W)
      → All (IsPossible re max_height) hs
      → IsWell re max_height p
      → (p' : Program W) × (run_all re max_height hs p ≡ some p') × IsWell re max_height p'
  unfolding run_all
  run_all-IsWell [] p o w = (p, refl, w)
  run_all-IsWell (h ∷ hs) p o w =
      let (p1, e1, w1) = step-IsWell h p o.0 w in
      let (p2, e2, w2) = run_all-IsWell hs p1 o.1 w1 in (p2, rw (e1, run_all) e2, w2)
