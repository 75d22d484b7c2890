-- ===== src/Signals/Waits.antt =====
-- One handler that waits for a signal.
use virtual_flight_radar_bac.Common.{
  ◌≡◌, Bool, true, false, ◌||◌, some, none, [], ◌∷◌, arith, Bool-cases, inl, inr,
}
use virtual_flight_radar_bac.Signals.{Signal, SignalListener, started, is_watched, raise, next_call}

-- A wait for a signal is there, or its handler is due.
abbrev pub Awaits : Bool → SignalListener (Unit {0}) → Type 0
Awaits false l = (l.waiting ≡ tt ∷ []) × (l.due ≡ [])
Awaits true l = (s : Signal) × (l.waiting ≡ []) × (l.due ≡ (tt, s) ∷ [])

pub raise-Awaits :
    (due : Bool) (s : Signal) (l : SignalListener (Unit {0}))
    → Awaits due l
    → Awaits (due || is_watched s) (raise s l)
unfolding raise
raise-Awaits true s l (t, nobody, one) = (t, ground (arith, nobody), ground (arith, one, nobody))
raise-Awaits false s l (one, nothing) = elim (Bool-cases (is_watched s)) [
  | inl watched ↦
      rw watched (s, ground (arith, watched, one), ground (arith, watched, one, nothing))
  | inr ignored ↦ rw ignored (ground (arith, ignored, one), ground (arith, ignored, nothing))
]

pub raise-rest :
    (s : Signal) (l : SignalListener (Unit {0}))
    → ((raise s l).is_stopped ≡ l.is_stopped) × ((raise s l).thread ≡ l.thread)
unfolding raise
raise-rest s l = ground arith

-- The handler is called where it is due, and nothing is called otherwise.
pub next_call-due :
    (s : Signal) (l : SignalListener (Unit {0}))
    → l.is_stopped ≡ false
    → l.thread ≡ started
    → l.due ≡ (tt, s) ∷ []
    → (next_call l).1 ≡ some (tt, s)
unfolding next_call
next_call-due s l free there one = ground arith

pub next_call-none : (l : SignalListener (Unit {0})) → l.due ≡ [] → next_call l ≡ (l, none)
unfolding next_call
next_call-none l nothing = ground arith

pub next_call-thread : (l : SignalListener (Unit {0})) → (next_call l).0.thread ≡ l.thread
unfolding next_call
next_call-thread l = ground arith
