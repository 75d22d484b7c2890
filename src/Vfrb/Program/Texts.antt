-- ===== src/Vfrb/Program/Texts.antt =====
-- What the clients of the server get from the program that runs.
use virtual_flight_radar_bac.Common.{
  ℕ, ◌≡◌, Option, none, some, List, [], ◌∷◌, All, Bool-cases, Option-cases, inl, inr,
}
use virtual_flight_radar_bac.Common.Int.{ℤ}
use virtual_flight_radar_bac.Common.Text.{Str}
use virtual_flight_radar_bac.Common.Print.Digits.{IsPlain, IsInt32}
use virtual_flight_radar_bac.Double.{Double}
use virtual_flight_radar_bac.Data.Processor.Wellformed.{IsPrintable}
use virtual_flight_radar_bac.Data.Processor.GpsProcessor.{Tm}
use virtual_flight_radar_bac.Data.Processor.GpsProcessor.Fixes.{IsCalendar}
use virtual_flight_radar_bac.Feed.Parser.Nmea.Guarded.{AreGuarded}
use virtual_flight_radar_bac.Feed.Parser.Regex.{Regexes}
use virtual_flight_radar_bac.Feed.Parser.Ids.{IsCutting}
use virtual_flight_radar_bac.Client.Manager.{FeedInfo}
use virtual_flight_radar_bac.Client.Manager.Threads.Lines.{IsTidy}
use virtual_flight_radar_bac.Client.Manager.Threads.World.{fleet-keeps}
use virtual_flight_radar_bac.Config.{Configuration}
use virtual_flight_radar_bac.Server.Interface.{Socket, write}
use virtual_flight_radar_bac.Server.Net
use virtual_flight_radar_bac.Vfrb.{of_configuration, message}
use virtual_flight_radar_bac.Vfrb.System.{Moment}
use virtual_flight_radar_bac.Vfrb.System.Clear.{
  IsClear, process-IsClear, message-AreGuarded, of_configuration-IsClear,
}
use virtual_flight_radar_bac.Vfrb.System.Sentences.{round-IsClear}
use virtual_flight_radar_bac.Vfrb.Program.{
  AnyFeed, Site, Program, Happening, in_fleet, accepts, refuses, handles, arrives, round, ticks,
  raises, catches, net_of, on_net, catch_signal, takes_line, step, run_all, start,
}
use virtual_flight_radar_bac.Vfrb.Program.Well.{IsPossible, start-IsWell}
use virtual_flight_radar_bac.Vfrb.Program.Course.{run_all-IsWell}

module _ {W : Type 0} ⦃d : Double W⦄ (re : Regexes) (max_height : ℤ) where
  -- The line that each connector would hand over next has at most 1000 ASCII characters.
  abbrev pub IsDelivering : Program W → Type 0
  IsDelivering p = All (IsTidy (IsPlain 1000)) p.fleet.threads

  abbrev pub AreDelivering : List (Happening W) → Option (Program W) → Type 0
  AreDelivering hs none = Unit {0}
  AreDelivering [] (some p) = Unit {0}
  AreDelivering (h ∷ hs) (some p) = IsDelivering p × AreDelivering hs (step re max_height h p)

  abbrev IsClearSite : Site W → Type 0
  IsClearSite s = IsClear max_height s.vfrb

  takes_line-IsClearSite :
      (f : AnyFeed) (s : Str) (w : Site W)
      → IsCutting re
      → IsPrintable W
      → IsPlain 1000 s
      → IsClearSite w
      → IsClearSite (takes_line re max_height f s w).0
  unfolding takes_line
  takes_line-IsClearSite f s w cut h l k =
      process-IsClear max_height re w.moment f.0 f.1 s w.vfrb cut h l k

  -- That of the program, if no exception has ended it.
  abbrev IsClearAfter : Option (Program W) → Type 0
  IsClearAfter none = Unit {0}
  IsClearAfter (some p) = IsClearSite p.fleet.world

  on_net-IsClearAfter :
      (e : Net.Event) (p : Program W) → IsClearSite p.fleet.world → IsClearAfter (on_net e p)
  unfolding on_net
  on_net-IsClearAfter e p k = elim (Option-cases (Net.step e (net_of p))) [
    | inl ended ↦ rw (ended, on_net) tt
    | inr (n, goes_on) ↦
        rw (goes_on, on_net)
          (record { fit = k.fit; voiced = k.voiced; placed = k.placed; air = k.air; wind = k.wind })
  ]

  step-IsClearAfter :
      (h : Happening W) (p : Program W)
      → IsCutting re
      → IsPrintable W
      → IsDelivering p
      → IsClearSite p.fleet.world
      → IsClearAfter (step re max_height h p)
  unfolding step catch_signal
  step-IsClearAfter (in_fleet e) p cut i l k =
      fleet-keeps (takes_line re max_height) (IsPlain 1000) IsClearSite
        (λ f s w plain. takes_line-IsClearSite f s w cut i plain) e p.fleet l k
  step-IsClearAfter accepts p cut i l k = on_net-IsClearAfter Net.begins p k
  step-IsClearAfter refuses p cut i l k = on_net-IsClearAfter Net.refuses p k
  step-IsClearAfter handles p cut i l k = on_net-IsClearAfter Net.handles p k
  step-IsClearAfter (arrives peer) p cut i l k = on_net-IsClearAfter (Net.arrives peer) p k
  step-IsClearAfter (round takes utc) p cut i l k = elim (Bool-cases p.running) [
    | inl runs ↦ rw (runs, step) (round-IsClear max_height (write takes) utc p.fleet.world.vfrb i k)
    | inr ended ↦ rw (ended, step) k
  ]
  step-IsClearAfter (ticks m) p cut i l k = k
  step-IsClearAfter (raises s) p cut i l k = k
  step-IsClearAfter catches p cut i l k = k

  run_all-IsClearAfter :
      (hs : List (Happening W)) (p : Program W)
      → IsCutting re
      → IsPrintable W
      → AreDelivering hs (some p)
      → IsClearSite p.fleet.world
      → IsClearAfter (run_all re max_height hs p)
  unfolding run_all
  run_all-IsClearAfter [] p cut i l k = k
  run_all-IsClearAfter (h ∷ hs) p cut i l k =
      let now = step-IsClearAfter h p cut i l.0 k in
      elim (Option-cases (step re max_height h p)) [
        | inl ended ↦ rw (ended, run_all) tt
        | inr (p', goes_on) ↦
            rw (goes_on, run_all)
              (run_all-IsClearAfter hs p' cut i (rw goes_on at l.1) (rw goes_on at now))
      ]

module _ {W P : Type 0} ⦃d : Double W⦄ where
  start-IsClear :
      (re : Regexes) (utc : Tm) (c : Configuration W P) (combine : ℕ → Str → ℕ)
      (info : AnyFeed → FeedInfo) (feeds : List AnyFeed) (m : Moment W)
      → IsInt32 c.position.position.altitude
      → IsClear c.max_height
          (start re c.max_height combine info feeds m (of_configuration utc c)).fleet.world.vfrb
  unfolding start
  start-IsClear re utc c combine info feeds m i =
      let k = of_configuration-IsClear {S = Socket} utc c i in
      record { fit = k.fit; voiced = k.voiced; placed = k.placed; air = k.air; wind = k.wind }

  -- Whatever happens to a program that runs on a configuration, its clients, its server and the
  -- network, where no client of the server is gone before its address has been asked for and the
  -- line that a connector would hand over next has never more than 1000 characters, all ASCII: the
  -- exception of `remote_endpoint` does not end it, and the text of the next round is a sequence of sentences each of which passes the guard of the NMEA
  -- parsers. The configured altitude is to be an `int32_t`, the calendar time what `std::gmtime`
  -- gives, a group of a match a part of the text, and the conversions of `double`s as C++ promises
  -- them.
  pub message-run_all :
      (re : Regexes) (initial utc : Tm) (c : Configuration W P) (combine : ℕ → Str → ℕ)
      (info : AnyFeed → FeedInfo) (feeds : List AnyFeed) (m : Moment W) (hs : List (Happening W))
      → let p0 = start re c.max_height combine info feeds m (of_configuration initial c) in
        IsCutting re
        → IsPrintable W
        → IsInt32 c.position.position.altitude
        → IsCalendar utc
        → All (IsPossible re c.max_height) hs
        → AreDelivering re c.max_height hs (some p0)
        → (p : Program W) × (run_all re c.max_height hs p0 ≡ some p)
          × AreGuarded (message utc p.fleet.world.vfrb).1
  message-run_all re initial utc c combine info feeds m hs cut i altitude t possible l =
      let p0 = start re c.max_height combine info feeds m (of_configuration initial c) in
      let (p, e, w) =
        run_all-IsWell re c.max_height hs p0 possible
          (start-IsWell re initial c combine info feeds m) in
      let k =
        run_all-IsClearAfter re c.max_height hs p0 cut i l
          (start-IsClear re initial c combine info feeds m altitude) in
      (p, e, message-AreGuarded c.max_height utc p.fleet.world.vfrb i t (rw e at k))
