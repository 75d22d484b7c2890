-- ===== src/Client/Manager/Threads.antt =====
-- `run` and `stop` of src/client/ClientManager.cpp: a thread for each client, over the containers
-- that all feeds share. What holds the mutex is one step. So is `stop` from its first client to the
-- last thread that it joins: what the threads do in between is left out, since a connector that is
-- stopped stays so.
pub mod Join
pub mod Lines
pub mod World
use virtual_flight_radar_bac.Common.{
  ℕ, zero, suc, Bool, true, false, ◌&&◌, Option, none, some, List, [], ◌∷◌, if◌then◌else◌,
}
use virtual_flight_radar_bac.Common.Text.{Str}
use virtual_flight_radar_bac.Client
use virtual_flight_radar_bac.Client.{Kind, idle}
use virtual_flight_radar_bac.Client.Manager.{Member}
use virtual_flight_radar_bac.Client.Connector
use virtual_flight_radar_bac.Client.Connector.{Connector}
use virtual_flight_radar_bac.Client.Connector.Joint.{Joint, Stimulus, is_stopped, next, start}

-- A thread has not called `run` of its client yet, is in it, or has erased the client after it.
pub data Phase : Type 0 where
  created inside erased : Phase

abbrev pub is_created : Phase → Bool
is_created created = true
is_created _ = false

-- A client with its endpoint and its feeds, and its thread.
pub record Thread (F : Type 0) : Type 0 where
  pub kind : Kind
  pub host : Str
  pub port : Str
  pub feeds : List F
  pub client : Client.Client
  pub connector : Connector
  pub phase : Phase

pub record Fleet (F World : Type 0) : Type 0 where
  pub world : World
  pub threads : List (Thread F)

-- What can happen once the manager runs: the thread at a place calls `run`, or comes back from it
-- since the event queue of its connector is stopped, and whatever can happen to its client.
pub data Event : Type 0 where
  begins : ℕ → ℕ → Event
  comes_back : ℕ → Event
  meets : ℕ → Stimulus → Event

-- `run`: the thread for a client.
unfoldable pub thread_of : {F : Type 0} → Kind → Str → Str → List F → Thread F
thread_of kind host port feeds = record {
  kind = kind;
  host = host;
  port = port;
  feeds = feeds;
  client = record { kind = kind; state = idle };
  connector = Connector.initial;
  phase = created;
}

-- `ClientManager::run`.
unfoldable pub threads_of : {F : Type 0} → List (Member F) → List (Thread F)
unfolding thread_of
threads_of [] = []
threads_of (c ∷ cs) = thread_of c.kind c.endpoint.host c.endpoint.port c.feeds ∷ threads_of cs

-- What follows `run` of the client in its thread, once that is over.
unfoldable pub come_back : {F : Type 0} → Thread F → Thread F
come_back t = elim t.phase [
  | created ↦ t
  | inside ↦
      if t.connector.stopped
      then record t { client = (Client.run_returns t.client).0; phase = erased }
      else t
  | erased ↦ t
]

-- `join_all`: every thread goes on for as long as it can.
unfoldable pub join_all : {F : Type 0} → List (Thread F) → List (Thread F)
unfolding come_back
join_all [] = []
join_all (t ∷ ts) = come_back t ∷ join_all ts

module _ {F World : Type 0} (process : F → Str → World → World × Bool) where
  abbrev pub joint_of : World → Thread F → Joint World
  joint_of w t = record { client = t.client; world = w; connector = t.connector }

  abbrev pub back : Joint World → Thread F → World × Thread F
  back j t = (j.world, record t { client = j.client; connector = j.connector })

  unfoldable pub begin : ℕ → World → Thread F → World × Thread F
  begin now w t = elim t.phase [
    | created ↦
        let j = start process t.host t.port now t.feeds t.kind w in
        back j (record t { phase = inside })
    | inside ↦ (w, t)
    | erased ↦ (w, t)
  ]

  unfoldable pub meet : Stimulus → World → Thread F → World × Thread F
  meet s w t = elim t.phase [
    | created ↦ (w, t)
    | inside ↦ back (next process t.host t.port t.feeds s (joint_of w t)) t
    | erased ↦ (w, t)
  ]

  -- The loop of `stop` over the clients that are not erased: `scheduleStop` of each. It waits a
  -- little for a client that does not run yet, and does nothing to it then.
  unfoldable pub stop_all : ℕ → World → List (Thread F) → World × List (Thread F)
  unfolding meet
  stop_all now w [] = (w, [])
  stop_all now w (t ∷ ts) =
      let (w', t') = meet (is_stopped now) w t in
      let (w'', ts') = stop_all now w' ts in (w'', t' ∷ ts')

  unfoldable pub stop : ℕ → Fleet F World → Fleet F World
  unfolding stop_all join_all
  stop now f =
      let (w, ts) = stop_all now f.world f.threads in record { world = w; threads = join_all ts }

  unfoldable pub at_place :
      (World → Thread F → World × Thread F) → ℕ → World → List (Thread F) → World × List (Thread F)
  at_place change i w [] = (w, [])
  at_place change zero w (t ∷ ts) = let (w', t') = change w t in (w', t' ∷ ts)
  at_place change (suc i) w (t ∷ ts) = let (w', ts') = at_place change i w ts in (w', t ∷ ts')

  abbrev pub change_of : Event → World → Thread F → World × Thread F
  change_of (begins now i) w t = begin now w t
  change_of (comes_back i) w t = (w, come_back t)
  change_of (meets i s) w t = meet s w t

  abbrev pub place_of : Event → ℕ
  place_of (begins now i) = i
  place_of (comes_back i) = i
  place_of (meets i s) = i

  unfoldable pub step : Event → Fleet F World → Fleet F World
  unfolding at_place begin meet come_back
  step e f =
      let (w, ts) = at_place (change_of e) (place_of e) f.world f.threads in
      record { world = w; threads = ts }

  unfoldable pub run_all : List Event → Fleet F World → Fleet F World
  unfolding step
  run_all [] f = f
  run_all (e ∷ es) f = run_all es (step e f)
