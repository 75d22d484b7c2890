-- ===== src/Client/Manager/Threads/Join.antt =====
-- `stop` of the manager comes to its end.
use virtual_flight_radar_bac.Common.{
  ℕ, zero, suc, ◌≡◌, refl, Bool, true, false, not, ◌&&◌, List, [], ◌∷◌, All, arith, if◌then◌else◌,
}
use virtual_flight_radar_bac.Common.Text.{Str}
use virtual_flight_radar_bac.Client
use virtual_flight_radar_bac.Client.{Kind, idle, is_idle, is_stopping}
use virtual_flight_radar_bac.Client.Connector
use virtual_flight_radar_bac.Client.Connector.Joint.{Stimulus, is_stopped}
use virtual_flight_radar_bac.Client.Connector.Joint.Ends.{
  next-IsAware, start-IsAware, stopped-IsAware,
}
use virtual_flight_radar_bac.Client.Manager.{Member}
use virtual_flight_radar_bac.Client.Manager.Threads.{
  Phase, is_created, created, inside, erased, Thread, threads_of, Fleet, Event, begins, comes_back,
  meets, thread_of, come_back, join_all, begin, meet, stop_all, stop, at_place, step, run_all,
  change_of, place_of,
}

-- A client that runs is not idle, and is stopping only with its connector stopped.
abbrev pub IsKeptIn : Phase → Client.Client → Connector.Connector → Type 0
IsKeptIn created c k = Unit {0}
IsKeptIn inside c k = (is_idle c.state ≡ false) × (is_stopping c.state && not k.stopped ≡ false)
IsKeptIn erased c k = Unit {0}

module _ {F : Type 0} where
  abbrev pub IsKept : Thread F → Type 0
  IsKept t = IsKeptIn t.phase t.client t.connector

  if-IsKept : (b : Bool) (t u : Thread F) → IsKept t → IsKept u → IsKept (if b then t else u)
  if-IsKept true t u h k = h
  if-IsKept false t u h k = k

  come_back-IsKept : (t : Thread F) → IsKept t → IsKept (come_back t)
  unfolding come_back
  come_back-IsKept t h = by_phase t.phase t.client t.connector h
    where
      by_phase :
          (p : Phase) (c : Client.Client) (k : Connector.Connector)
          → IsKeptIn p c k
          → IsKept (come_back (record t { phase = p; client = c; connector = k }))
      by_phase created c k h = h
      by_phase inside c k h = if-IsKept k.stopped _ _ tt h
      by_phase erased c k h = h

  pub threads_of-IsKept : (cs : List (Member F)) → All IsKept (threads_of cs)
  unfolding threads_of thread_of
  threads_of-IsKept [] = tt
  threads_of-IsKept (c ∷ cs) = (tt, threads_of-IsKept cs)

  -- The thread of a client has called `run`.
  abbrev pub HasBegun : Thread F → Type 0
  HasBegun t = is_created t.phase ≡ false

  abbrev pub IsErased : Thread F → Type 0
  IsErased t = t.phase ≡ erased

module _ {F World : Type 0} (process : F → Str → World → World × Bool) where
  begin-IsKept : (now : ℕ) (w : World) (t : Thread F) → IsKept t → IsKept (begin process now w t).1
  unfolding begin
  begin-IsKept now w t h = by_phase t.phase t.client t.connector h
    where
      by_phase :
          (p : Phase) (c : Client.Client) (k : Connector.Connector)
          → IsKeptIn p c k
          → IsKept (begin process now w (record t { phase = p; client = c; connector = k })).1
      by_phase created c k h =
          let a = start-IsAware process t.host t.port now t.feeds t.kind w in (a.busy, a.ended)
      by_phase inside c k h = h
      by_phase erased c k h = h

  meet-IsKept : (s : Stimulus) (w : World) (t : Thread F) → IsKept t → IsKept (meet process s w t).1
  unfolding meet
  meet-IsKept s w t h = by_phase t.phase t.client t.connector h
    where
      by_phase :
          (p : Phase) (c : Client.Client) (k : Connector.Connector)
          → IsKeptIn p c k
          → IsKept (meet process s w (record t { phase = p; client = c; connector = k })).1
      by_phase created c k h = h
      by_phase inside c k (busy, ended) =
          let a =
            next-IsAware process t.host t.port t.feeds s
              (record { client = c; world = w; connector = k })
              (record { busy = busy; ended = ended }) in
          (a.busy, a.ended)
      by_phase erased c k h = h

  change_of-IsKept :
      (e : Event) (w : World) (t : Thread F) → IsKept t → IsKept (change_of process e w t).1
  change_of-IsKept (begins now i) w t h = begin-IsKept now w t h
  change_of-IsKept (comes_back i) w t h = come_back-IsKept t h
  change_of-IsKept (meets i s) w t h = meet-IsKept s w t h

  at_place-IsKept :
      (e : Event) (i : ℕ) (w : World) (ts : List (Thread F))
      → All IsKept ts
      → All IsKept (at_place process (change_of process e) i w ts).1
  unfolding at_place
  at_place-IsKept e i w [] h = tt
  at_place-IsKept e zero w (t ∷ ts) h = (change_of-IsKept e w t h.0, h.1)
  at_place-IsKept e (suc i) w (t ∷ ts) h = (h.0, at_place-IsKept e i w ts h.1)

  pub fleet-IsKept :
      (e : Event) (f : Fleet F World) → All IsKept f.threads → All IsKept (step process e f).threads
  unfolding step
  fleet-IsKept e f h = at_place-IsKept e (place_of process e) f.world f.threads h

  run_all-IsKept :
      (es : List Event) (f : Fleet F World)
      → All IsKept f.threads
      → All IsKept (run_all process es f).threads
  unfolding run_all
  run_all-IsKept [] f h = h
  run_all-IsKept (e ∷ es) f h =
      run_all-IsKept es (step process e f)
        (at_place-IsKept e (place_of process e) f.world f.threads h)

  -- A thread that `stop` has come to.
  stopped-IsErased :
      (now : ℕ) (w : World) (t : Thread F)
      → IsKept t
      → HasBegun t
      → IsErased (come_back (meet process (is_stopped now) w t).1)
  unfolding meet come_back
  stopped-IsErased now w t h b = by_phase t.phase t.client t.connector h b
    where
      by_phase :
          (p : Phase) (c : Client.Client) (k : Connector.Connector)
          → IsKeptIn p c k
          → is_created p ≡ false
          → IsErased (
              come_back
                (meet process
                  (is_stopped now)
                  w
                  (record t { phase = p; client = c; connector = k })).1)
      by_phase created c k h b = absurd cc
      by_phase inside c k (busy, ended) b =
          let (halts, over) =
            stopped-IsAware process t.host t.port now t.feeds
              (record { client = c; world = w; connector = k })
              (record { busy = busy; ended = ended }) in
          ground (arith, over)
      by_phase erased c k h b = refl

  stop_all-IsErased :
      (now : ℕ) (w : World) (ts : List (Thread F))
      → All IsKept ts
      → All HasBegun ts
      → All IsErased (join_all (stop_all process now w ts).1)
  unfolding stop_all join_all
  stop_all-IsErased now w [] h b = tt
  stop_all-IsErased now w (t ∷ ts) h b = (
    stopped-IsErased now w t h.0 b.0,
    stop_all-IsErased now (meet process (is_stopped now) w t).0 ts h.1 b.1,
  )

  pub stop-IsErased :
      (now : ℕ) (f : Fleet F World)
      → All IsKept f.threads
      → All HasBegun f.threads
      → All IsErased (stop process now f).threads
  unfolding stop
  stop-IsErased now f h b = stop_all-IsErased now f.world f.threads h b

  -- Whatever the threads and the network have done since `run` of the manager, if every thread has
  -- begun by then, `stop` makes each of them come back from its client and erase it, so that
  -- `join_all` does not wait for ever.
  pub stop-join_all :
      (now : ℕ) (w : World) (cs : List (Member F)) (es : List Event)
      → All HasBegun (run_all process es (record { world = w; threads = threads_of cs })).threads
      → All IsErased
          (stop process now
            (run_all process es (record { world = w; threads = threads_of cs }))).threads
  stop-join_all now w cs es b =
      let f : Fleet F World = record { world = w; threads = threads_of cs } in
      stop-IsErased now (run_all process es f) (run_all-IsKept es f (threads_of-IsKept cs)) b
