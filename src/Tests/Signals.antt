-- ===== src/Tests/Signals.antt =====
-- The listener for signals.
use virtual_flight_radar_bac.Common.{ℕ, ◌≡◌, refl, true, List, [], ◌∷◌, ◌++◌, All}
use virtual_flight_radar_bac.Signals.{
  Event, adds, runs, calls, raises, sigint, sigterm, other, is_watched, initial, run_all,
}
use virtual_flight_radar_bac.Signals.Outstanding.{handlers, outstanding, all_added}
use virtual_flight_radar_bac.Signals.Once.{run_all-initial}

-- The second signal waits for the handler that is added last.
abbrev evening : List (Event ℕ)
evening =
    adds 1 ∷ runs ∷ raises other ∷ raises sigint ∷ raises sigterm ∷ calls ∷ adds 2 ∷ calls ∷ []

evening_calls : (run_all evening initial).1 ≡ (1, sigint) ∷ (2, sigterm) ∷ []
unfolding run_all initial
evening_calls = refl

run_all-initial_example :
    (handlers (run_all evening initial).1 ++ outstanding (run_all evening initial).0
      ≡ all_added evening)
    × All (λ c. is_watched c.1 ≡ true) (run_all evening initial).1
run_all-initial_example = run_all-initial evening
