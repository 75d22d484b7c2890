-- ===== src/Signals.antt =====
-- src/util/SignalListener.cpp: what the program waits for signals with, over Boost.Asio. A signal of
-- the set completes every wait that there is; where there is none, the set keeps it for the next one.
-- The event queue calls the handlers in the thread of the listener.
pub mod Outstanding
pub mod Once
pub mod Waits
use virtual_flight_radar_bac.Common.{
  Bool, true, false, not, ◌&&◌, Option, none, some, List, [], ◌∷◌, ◌++◌, map, if◌then◌else◌,
}

pub data Signal : Type 0 where
  sigint sigterm sigquit other : Signal

-- The set that the constructor fills, where SIGQUIT is defined.
unfoldable pub is_watched : Signal → Bool
is_watched sigint = true
is_watched sigterm = true
is_watched sigquit = true
is_watched other = false

-- The thread has not been started, may be running, or has been joined.
pub data Phase : Type 0 where
  idle started joined : Phase

abbrev pub is_started : Phase → Bool
is_started started = true
is_started _ = false

-- `waiting` and `due` are the waits with the event queue: those that are not done, and those that
-- are, with the signal that their handler gets. `kept` are the signals that no wait has got.
pub record SignalListener (H : Type 0) : Type 0 where
  pub waiting : List H
  pub due : List (H × Signal)
  pub kept : List Signal
  pub is_stopped : Bool
  pub thread : Phase

module _ {H : Type 0} where
  -- The constructor.
  unfoldable pub initial : SignalListener H
  initial = record { waiting = []; due = []; kept = []; is_stopped = false; thread = idle }

  unfoldable pub add_handler : H → SignalListener H → SignalListener H
  add_handler h l = elim l.kept [
    | [] ↦ record l { waiting = l.waiting ++ h ∷ [] }
    | s ∷ rest ↦ record l { due = l.due ++ (h, s) ∷ []; kept = rest }
  ]

  -- `run`, which the program calls once.
  unfoldable pub run : SignalListener H → SignalListener H
  run l = record l { thread = started }

  -- `stop` joins the thread if there is one; that ends, since the event queue is stopped.
  unfoldable pub stop : SignalListener H → SignalListener H
  stop l = record l {
    is_stopped = true;
    thread = elim l.thread [ idle ↦ idle | started ↦ joined | joined ↦ joined ];
  }

  -- A signal is raised.
  unfoldable pub raise : Signal → SignalListener H → SignalListener H
  unfolding is_watched
  raise s l =
      if is_watched s
      then elim l.waiting [
        | [] ↦ record l { kept = l.kept ++ s ∷ [] }
        | h ∷ rest ↦ record l { waiting = []; due = l.due ++ map (λ k. (k, s)) (h ∷ rest) }
      ]
      else l

  -- The thread takes the next handler from the event queue, to call it.
  unfoldable pub next_call : SignalListener H → SignalListener H × Option (H × Signal)
  next_call l =
      if is_started l.thread && not l.is_stopped
      then elim l.due [ [] ↦ (l, none) | c ∷ rest ↦ (record l { due = rest }, some c) ]
      else (l, none)

  -- The event queue is stopped once it has nothing left to wait for.
  unfoldable pub run_out : SignalListener H → SignalListener H
  run_out l =
      if is_started l.thread
      then elim l.waiting [
        | [] ↦ elim l.due [ [] ↦ record l { is_stopped = true } | c ∷ rest ↦ l ]
        | h ∷ rest ↦ l
      ]
      else l

-- What can happen to a listener: a call of an operation, a signal, and what its thread does.
pub data Event (H : Type 0) : Type 0 where
  adds : H → Event H
  runs stops calls runs_out : Event H
  raises : Signal → Event H

module _ {H : Type 0} where
  abbrev pub called_of : Option (H × Signal) → List (H × Signal)
  called_of none = []
  called_of (some c) = c ∷ []

  -- With the call that is made, if any.
  unfoldable pub step : Event H → SignalListener H → SignalListener H × List (H × Signal)
  unfolding add_handler run stop raise next_call run_out
  step (adds h) l = (add_handler h l, [])
  step runs l = (run l, [])
  step stops l = (stop l, [])
  step calls l = let (l', call) = next_call l in (l', called_of call)
  step runs_out l = (run_out l, [])
  step (raises s) l = (raise s l, [])

  -- With all calls, in their order.
  unfoldable pub run_all : List (Event H) → SignalListener H → SignalListener H × List (H × Signal)
  unfolding step
  run_all [] l = (l, [])
  run_all (e ∷ es) l =
      let (l', made) = step e l in let (l'', more) = run_all es l' in (l'', made ++ more)
