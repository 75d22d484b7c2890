-- ===== src/Vfrb/Program/Loop.antt =====
-- When the main loop ends.
use mathlib.Core.Path.{subst}
use mathlib.Core.Option.{some_inj}
use virtual_flight_radar_bac.Common.{
  ℕ, ◌≡◌, refl, sym, ap, ◌∙◌, Bool, true, false, not, ◌||◌, some, List, [], ◌∷◌, All, arith,
  if◌then◌else◌, Bool-cases, Option-cases, inl, inr,
}
use virtual_flight_radar_bac.Common.Int.{ℤ}
use virtual_flight_radar_bac.Common.Text.{Str}
use virtual_flight_radar_bac.Double.{Double}
use virtual_flight_radar_bac.Data.Processor.GpsProcessor.{Tm}
use virtual_flight_radar_bac.Feed.Parser.Regex.{Regexes}
use virtual_flight_radar_bac.Client.Manager.{FeedInfo}
use virtual_flight_radar_bac.Config.{Configuration}
use virtual_flight_radar_bac.Server.Net
use virtual_flight_radar_bac.Signals
use virtual_flight_radar_bac.Signals.{
  Signal, SignalListener, started, is_watched, add_handler, raise, next_call,
}
use virtual_flight_radar_bac.Signals.Waits.{
  Awaits, raise-Awaits, raise-rest, next_call-due, next_call-none,
}
use virtual_flight_radar_bac.Vfrb.{of_configuration}
use virtual_flight_radar_bac.Vfrb.System.{Moment}
use virtual_flight_radar_bac.Vfrb.Program.{
  AnyFeed, Program, Happening, in_fleet, accepts, refuses, handles, arrives, round, ticks, raises,
  catches, on_net, catch_signal, step, run_all, start,
}
use virtual_flight_radar_bac.Vfrb.Program.Well.{IsPossible, start-IsWell}
use virtual_flight_radar_bac.Vfrb.Program.Course.{run_all-IsWell}

module _ {W : Type 0} where
  -- Whether the handler is due after an event, and whether the event is its call.
  abbrev pub due_after : Bool → Happening W → Bool
  due_after due (raises s) = due || is_watched s
  due_after due _ = due

  abbrev pub is_end : Bool → Happening W → Bool
  is_end due catches = due
  is_end due _ = false

  -- Whether the handler is called, where it may be due already.
  abbrev pub ends : Bool → List (Happening W) → Bool
  ends due [] = false
  ends due (h ∷ hs) = is_end due h || ends (due_after due h) hs

  record IsLooping (due : Bool) (p : Program W) : Type 0 where
    awaits : Awaits due p.signals
    free : p.signals.is_stopped ≡ false
    thread : p.signals.thread ≡ started
    runs : p.running ≡ true

  on_net-rest :
      (e : Net.Event) (p p' : Program W)
      → on_net e p ≡ some p'
      → (p'.signals ≡ p.signals) × (p'.running ≡ p.running)
  unfolding on_net
  on_net-rest e p p' h = ground (arith, h)

  same-IsLooping :
      (due : Bool) (p q : Program W)
      → (q.signals ≡ p.signals) × (q.running ≡ p.running)
      → IsLooping due p
      → IsLooping due q
  same-IsLooping due p q (same, goes_on) w = record {
    awaits = rw same w.awaits;
    free = rw same w.free;
    thread = rw same w.thread;
    runs = goes_on ∙ w.runs;
  }

  raises-IsLooping :
      (due : Bool) (s : Signal) (p : Program W)
      → IsLooping due p
      → IsLooping (due || is_watched s) (record p { signals = raise s p.signals })
  raises-IsLooping due s p w = record {
    awaits = raise-Awaits due s p.signals w.awaits;
    free = (raise-rest s p.signals).0 ∙ w.free;
    thread = (raise-rest s p.signals).1 ∙ w.thread;
    runs = w.runs;
  }

  catch_signal-due : (p : Program W) → IsLooping true p → (catch_signal p).running ≡ false
  unfolding catch_signal
  catch_signal-due p w =
      let (s, nobody, one) = w.awaits in
      rw (next_call-due s p.signals w.free w.thread one, catch_signal) refl

  catch_signal-none :
      (p : Program W)
      → IsLooping false p
      → ((catch_signal p).signals ≡ p.signals) × ((catch_signal p).running ≡ p.running)
  unfolding catch_signal
  catch_signal-none p w = rw (next_call-none p.signals w.awaits.1, catch_signal) (refl, refl)

module _ {W : Type 0} ⦃d : Double W⦄ (re : Regexes) (max_height : ℤ) where
  -- Once it has ended, the loop does not begin again.
  step-ended :
      (h : Happening W) (p p' : Program W)
      → step re max_height h p ≡ some p'
      → p.running ≡ false
      → p'.running ≡ false
  unfolding step catch_signal
  step-ended (in_fleet e) p p' h r = ground (arith, h, r)
  step-ended accepts p p' h r = (on_net-rest Net.begins p p' h).1 ∙ r
  step-ended refuses p p' h r = (on_net-rest Net.refuses p p' h).1 ∙ r
  step-ended handles p p' h r = (on_net-rest Net.handles p p' h).1 ∙ r
  step-ended (arrives peer) p p' h r = (on_net-rest (Net.arrives peer) p p' h).1 ∙ r
  step-ended (round takes utc) p p' h r = ground (arith, h, r)
  step-ended (ticks m) p p' h r = ground (arith, h, r)
  step-ended (raises s) p p' h r = ground (arith, h, r)
  step-ended catches p p' h r = ground (arith, h, r)

  run_all-ended :
      (hs : List (Happening W)) (p p' : Program W)
      → run_all re max_height hs p ≡ some p'
      → p.running ≡ false
      → p'.running ≡ false
  unfolding run_all
  run_all-ended [] p p' e r = ground (arith, e, r)
  run_all-ended (h ∷ hs) p p' e r = elim (Option-cases (step re max_height h p)) [
    | inl gone ↦ absurd (ground (arith, e, gone))
    | inr (q, there) ↦ run_all-ended hs q p' (ground (arith, e, there)) (step-ended h p q there r)
  ]

  step-IsLooping :
      (h : Happening W) (due : Bool) (p q : Program W)
      → step re max_height h p ≡ some q
      → IsLooping due p
      → if is_end due h then q.running ≡ false else IsLooping (due_after due h) q
  unfolding step
  step-IsLooping (in_fleet e) due p q h w = same-IsLooping due p q (ground (arith, h)) w
  step-IsLooping accepts due p q h w = same-IsLooping due p q (on_net-rest Net.begins p q h) w
  step-IsLooping refuses due p q h w = same-IsLooping due p q (on_net-rest Net.refuses p q h) w
  step-IsLooping handles due p q h w = same-IsLooping due p q (on_net-rest Net.handles p q h) w
  step-IsLooping (arrives peer) due p q h w =
      same-IsLooping due p q (on_net-rest (Net.arrives peer) p q h) w
  step-IsLooping (round takes utc) due p q h w = same-IsLooping due p q (ground (arith, h)) w
  step-IsLooping (ticks m) due p q h w = same-IsLooping due p q (ground (arith, h)) w
  step-IsLooping (raises s) due p q h w =
      subst (IsLooping (due || is_watched s)) (some_inj.0 h) (raises-IsLooping due s p w)
  step-IsLooping catches true p q h w =
      ap (λ r. r.running) (sym (some_inj.0 h)) ∙ catch_signal-due p w
  step-IsLooping catches false p q h w =
      subst (IsLooping false) (some_inj.0 h)
        (same-IsLooping false p (catch_signal p) (catch_signal-none p w) w)

  run_all-ends :
      (hs : List (Happening W)) (due : Bool) (p p' : Program W)
      → run_all re max_height hs p ≡ some p'
      → IsLooping due p
      → p'.running ≡ not (ends due hs)
  unfolding run_all
  run_all-ends [] due p p' e w = ap (λ r. r.running) (sym (some_inj.0 e)) ∙ w.runs
  run_all-ends (h ∷ hs) due p p' e w = elim (Option-cases (step re max_height h p)) [
    | inl gone ↦ absurd (ground (arith, e, gone))
    | inr (q, there) ↦
        let rest : run_all re max_height hs q ≡ some p' = ground (arith, e, there) in
        let next = step-IsLooping h due p q there w in
        elim (Bool-cases (is_end due h)) [
          | inl ended ↦ rw ended (run_all-ended hs q p' rest (rw ended at next))
          | inr not_yet ↦
              rw not_yet (run_all-ends hs (due_after due h) q p' rest (rw not_yet at next))
        ]
  ]

module _ {W P : Type 0} ⦃d : Double W⦄ where
  -- The main loop of a program that runs on a configuration ends exactly when a signal of the set has
  -- been raised and its handler is called after that, whatever else happens, where no client of the
  -- server is gone before its address has been asked for.
  pub running-run_all :
      (re : Regexes) (utc : Tm) (c : Configuration W P) (combine : ℕ → Str → ℕ)
      (info : AnyFeed → FeedInfo) (feeds : List AnyFeed) (m : Moment W) (hs : List (Happening W))
      → All (IsPossible re c.max_height) hs
      → (p : Program W) × (run_all re c.max_height hs
            (start re c.max_height combine info feeds m (of_configuration utc c))
          ≡ some p)
        × (p.running ≡ not (ends false hs))
  unfolding start add_handler Signals.run Signals.initial
  running-run_all re utc c combine info feeds m hs possible =
      let first = start re c.max_height combine info feeds m (of_configuration utc c) in
      let (p, e, w) =
        run_all-IsWell re c.max_height hs first possible
          (start-IsWell re utc c combine info feeds m) in
      (
        p,
        e,
        run_all-ends re c.max_height hs false first p e
            (record { awaits = (refl, refl); free = refl; thread = refl; runs = refl }),
      )
