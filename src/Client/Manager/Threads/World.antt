-- ===== src/Client/Manager/Threads/World.antt =====
-- What the feeds keep of the containers, the clients and their threads keep too.
use virtual_flight_radar_bac.Common.{
  ℕ, zero, suc, List, [], ◌∷◌, Bool, true, false, if◌then◌else◌, All, get_elem?, Option-cases, inl,
  inr,
}
use virtual_flight_radar_bac.Common.Text.{Str}
use virtual_flight_radar_bac.Client
use virtual_flight_radar_bac.Client.{Kind, ErrorCode, success, failure, feed_all, handle_read}
use virtual_flight_radar_bac.Client.Machine
use virtual_flight_radar_bac.Client.Machine.{reads}
use virtual_flight_radar_bac.Client.Connector.{Call, complete}
use virtual_flight_radar_bac.Client.Connector.Joint.{
  Joint, Stimulus, is_stopped, completes, arrives, event_of, remove_at, handle_event, handle_call,
  handle_calls, dispatch, next, start,
}
use virtual_flight_radar_bac.Client.Manager.Threads.Lines.{
  next_line, IsTidy, Hands, HandsOver, complete-Hands, event_of-HandsAny,
}
use virtual_flight_radar_bac.Client.Manager.Threads.{
  Phase, created, inside, erased, Thread, Fleet, Event, begins, comes_back, meets, begin, meet,
  stop_all, stop, at_place, step, change_of, place_of,
}

module _ {F World : Type 0} (process : F → Str → World → World × Bool) (L : Str → Type 0)
    (I : World → Type 0)
    (keeps : (f : F) (s : Str) (w : World) → L s → I w → I (process f s w).0) where
  feed_all-keeps :
      (fs : List F) (s : Str) (w : World) (c : Client.Client)
      → L s
      → I w
      → I (feed_all process fs s w c).0
  unfolding feed_all
  feed_all-keeps [] s w c l h = h
  feed_all-keeps (f ∷ fs) s w c l h = feed_all-keeps fs s (process f s w).0 _ l (keeps f s w l h)

  if-keeps : {R : Type 0} (b : Bool) (x y : World × R) → I x.0 → I y.0 → I (if b then x else y).0
  if-keeps true x y h k = h
  if-keeps false x y h k = k

  handle_read-keeps :
      (fs : List F) (e : ErrorCode) (s : Str) (w : World) (c : Client.Client)
      → HandsOver L (reads e s)
      → I w
      → I (handle_read process fs e s w c).0
  unfolding handle_read
  handle_read-keeps fs success s w c l h = if-keeps _ _ _ (feed_all-keeps fs s w c l h) h
  handle_read-keeps fs failure s w c l h = if-keeps _ _ _ h h

  step-keeps :
      (fs : List F) (e : Machine.Event) (w : World) (c : Client.Client)
      → HandsOver L e
      → I w
      → I (Machine.step process fs e w c).0
  unfolding Machine.step
  step-keeps fs (reads e s) w c l h = handle_read-keeps fs e s w c l h
  step-keeps fs e w c l h = h

  module _ (host port : Str) where
    handle_call-keeps :
        (now : ℕ) (fs : List F) (k : Call) (j : Joint World)
        → Hands L k
        → I j.world
        → I (handle_call process host port now fs k j).world
    unfolding handle_call handle_event
    handle_call-keeps now fs k j l h = elim (Option-cases (event_of k)) [
      | inl nothing ↦ rw (nothing, handle_call) h
      | inr (e, some_event) ↦
          rw (some_event, handle_call)
            (step-keeps fs e j.world j.client (rw some_event at (event_of-HandsAny L k l)) h)
    ]

    handle_calls-keeps :
        (now : ℕ) (fs : List F) (ks : List Call) (j : Joint World)
        → All (Hands L) ks
        → I j.world
        → I (handle_calls process host port now fs ks j).world
    unfolding handle_calls
    handle_calls-keeps now fs [] j l h = h
    handle_calls-keeps now fs (k ∷ ks) j l h =
        handle_calls-keeps now fs ks (handle_call process host port now fs k j) l.1
          (handle_call-keeps now fs k j l.0 h)

    next-keeps :
        (fs : List F) (s : Stimulus) (j : Joint World)
        → L (next_line j.connector)
        → I j.world
        → I (next process host port fs s j).world
    unfolding next handle_event dispatch Machine.step
    next-keeps fs (is_stopped now) j l h = h
    next-keeps fs (arrives s) j l h = h
    next-keeps fs (completes now i e) j l h =
        elim (Option-cases (get_elem? j.connector.pending i)) [
          | inl empty ↦ rw (empty, dispatch) h
          | inr (o, found) ↦
              let left = record j.connector { pending = remove_at i j.connector.pending } in
              rw (found, dispatch)
                (handle_calls-keeps now fs (complete o e left).1
                  (record j { connector = (complete o e left).0 }) (complete-Hands L o e left l) h)
        ]

    start-keeps :
        (now : ℕ) (fs : List F) (k : Kind) (w : World)
        → I w
        → I (start process host port now fs k w).world
    unfolding start handle_event Machine.step
    start-keeps now fs k w h = h

  begin-keeps : (now : ℕ) (w : World) (t : Thread F) → I w → I (begin process now w t).0
  unfolding begin
  begin-keeps now w t h = by_phase t.phase
    where
      by_phase : (p : Phase) → I (begin process now w (record t { phase = p })).0
      by_phase created = start-keeps t.host t.port now t.feeds t.kind w h
      by_phase inside = h
      by_phase erased = h

  meet-keeps :
      (s : Stimulus) (w : World) (t : Thread F) → IsTidy L t → I w → I (meet process s w t).0
  unfolding meet
  meet-keeps s w t l h = by_phase t.phase
    where
      by_phase : (p : Phase) → I (meet process s w (record t { phase = p })).0
      by_phase created = h
      by_phase inside =
          next-keeps t.host t.port t.feeds s
            (record { client = t.client; world = w; connector = t.connector }) l h
      by_phase erased = h

  change_of-keeps :
      (e : Event) (w : World) (t : Thread F) → IsTidy L t → I w → I (change_of process e w t).0
  change_of-keeps (begins now i) w t l h = begin-keeps now w t h
  change_of-keeps (comes_back i) w t l h = h
  change_of-keeps (meets i s) w t l h = meet-keeps s w t l h

  at_place-keeps :
      (e : Event) (i : ℕ) (w : World) (ts : List (Thread F))
      → All (IsTidy L) ts
      → I w
      → I (at_place process (change_of process e) i w ts).0
  unfolding at_place
  at_place-keeps e i w [] l h = h
  at_place-keeps e zero w (t ∷ ts) l h = change_of-keeps e w t l.0 h
  at_place-keeps e (suc i) w (t ∷ ts) l h = at_place-keeps e i w ts l.1 h

  pub fleet-keeps :
      (e : Event) (f : Fleet F World)
      → All (IsTidy L) f.threads
      → I f.world
      → I (step process e f).world
  unfolding step
  fleet-keeps e f l h = at_place-keeps e (place_of process e) f.world f.threads l h

  stop_all-keeps :
      (now : ℕ) (w : World) (ts : List (Thread F))
      → All (IsTidy L) ts
      → I w
      → I (stop_all process now w ts).0
  unfolding stop_all
  stop_all-keeps now w [] l h = h
  stop_all-keeps now w (t ∷ ts) l h =
      stop_all-keeps now (meet process (is_stopped now) w t).0 ts l.1
        (meet-keeps (is_stopped now) w t l.0 h)

  stop-keeps :
      (now : ℕ) (f : Fleet F World)
      → All (IsTidy L) f.threads
      → I f.world
      → I (stop process now f).world
  unfolding stop
  stop-keeps now f l h = stop_all-keeps now f.world f.threads l h

-- What the feeds keep with any line.
module _ {F World : Type 0} (process : F → Str → World → World × Bool) (I : World → Type 0)
    (keeps : (f : F) (s : Str) (w : World) → I w → I (process f s w).0) where
  all-IsTidy : (ts : List (Thread F)) → All (IsTidy (λ s. Unit {0})) ts
  all-IsTidy [] = tt
  all-IsTidy (t ∷ ts) = (tt, all-IsTidy ts)

  pub fleet-keeps_any : (e : Event) (f : Fleet F World) → I f.world → I (step process e f).world
  fleet-keeps_any e f h =
      fleet-keeps process (λ s. Unit {0}) I (λ f s w l. keeps f s w) e f (all-IsTidy f.threads) h

  pub stop-keeps_any : (now : ℕ) (f : Fleet F World) → I f.world → I (stop process now f).world
  stop-keeps_any now f h =
      stop-keeps process (λ s. Unit {0}) I (λ f s w l. keeps f s w) now f (all-IsTidy f.threads) h
