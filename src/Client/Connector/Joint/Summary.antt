-- ===== src/Client/Connector/Joint/Summary.antt =====
-- What of a connector a client depends on: whether its socket is open, and how many operations of a
-- sort are pending.
use virtual_flight_radar_bac.Common.{
  ℕ, zero, suc, ◌+◌, ◌≤◌, ◌≡◌, refl, ap, ◌∙◌, Bool, false, some, List, [], ◌∷◌, ◌++◌, arith,
  get_elem?, if◌then◌else◌,
}
use virtual_flight_radar_bac.Common.Text.{Str}
use virtual_flight_radar_bac.Client.{
  Callback, on_connect, on_login, on_watch, on_timed_connect, on_keep_alive, on_beacon, on_deadline,
  on_watch_stopped, Action, connect, close, stop_connector, read, write, timeout, reset_timer,
}
use virtual_flight_radar_bac.Client.Connector
use virtual_flight_radar_bac.Client.Connector.{
  Operation, resolve, establish, transmit, wait, receive, Connector, perform, perform_all, enqueue,
}
use virtual_flight_radar_bac.Client.Connector.Joint.{remove_at}

-- The sorts of an operation: those that go on with connecting, of these the writes, the reads, and
-- those with a callback that the client names for no such call.
pub data Sort : Type 0 where
  reaching logging reading other improper : Sort

abbrev pub wait_sort : Callback → Sort
wait_sort on_timed_connect = reaching
wait_sort on_keep_alive = other
wait_sort on_deadline = other
wait_sort _ = improper

abbrev pub transmit_sort : Callback → Sort
transmit_sort on_login = logging
transmit_sort on_watch = logging
transmit_sort on_beacon = other
transmit_sort on_watch_stopped = other
transmit_sort _ = improper

abbrev pub connect_sort : Callback → Sort
connect_sort on_connect = reaching
connect_sort _ = improper

abbrev pub sort_of : Operation → Sort
sort_of (resolve host port k) = connect_sort k
sort_of (establish k) = connect_sort k
sort_of (transmit message k) = transmit_sort k
sort_of (wait k) = wait_sort k
sort_of receive = reading

pub record Summary : Type 0 where
  pub is_open : Bool
  pub reaching : ℕ
  pub logging : ℕ
  pub reading : ℕ
  pub improper : ℕ

-- How often an operation of a sort counts: a write that goes on with connecting counts twice.
abbrev pub reaches : Sort → ℕ
reaches reaching = 1
reaches logging = 1
reaches _ = 0

abbrev pub logs : Sort → ℕ
logs logging = 1
logs _ = 0

abbrev pub reads : Sort → ℕ
reads reading = 1
reads _ = 0

abbrev pub errs : Sort → ℕ
errs improper = 1
errs _ = 0

abbrev pub add : Sort → Summary → Summary
add a s = record {
  is_open = s.is_open;
  reaching = reaches a + s.reaching;
  logging = logs a + s.logging;
  reading = reads a + s.reading;
  improper = errs a + s.improper;
}

abbrev pub tally : Bool → List Operation → Summary
tally is_open [] = record {
  is_open = is_open;
  reaching = 0;
  logging = 0;
  reading = 0;
  improper = 0;
}
tally is_open (o ∷ os) = add (sort_of o) (tally is_open os)

abbrev pub summary_of : Connector → Summary
summary_of c = tally c.is_open c.pending

pub tally-append :
    (b : Bool) (os : List Operation) (o : Operation)
    → tally b (os ++ o ∷ []) ≡ add (sort_of o) (tally b os)
tally-append b [] o = refl
tally-append b (p ∷ os) o = ground (arith, tally-append b os o)

pub tally-remove_at :
    (b : Bool) (os : List Operation) (i : ℕ) (o : Operation)
    → get_elem? os i ≡ some o
    → tally b os ≡ add (sort_of o) (tally b (remove_at i os))
tally-remove_at b [] i o e = cc
tally-remove_at b (p ∷ os) zero o e = ground arith
tally-remove_at b (p ∷ os) (suc i) o e = ground (arith, tally-remove_at b os i o)

-- Opening or closing the socket leaves the operations.
pub tally-open :
    (a b : Bool) (os : List Operation) → tally a os ≡ record (tally b os) { is_open = a }
tally-open a b [] = refl
tally-open a b (o ∷ os) = ground (arith, tally-open a b os)

add_logging-le :
    (a : Sort) (s : Summary) → s.logging ≤ s.reaching → (add a s).logging ≤ (add a s).reaching
add_logging-le a s h = ground arith

pub tally-logging-le :
    (b : Bool) (os : List Operation) → (tally b os).logging ≤ (tally b os).reaching
tally-logging-le b [] = omega arith
tally-logging-le b (o ∷ os) = add_logging-le (sort_of o) (tally b os) (tally-logging-le b os)

pub tally-is_open : (b : Bool) (os : List Operation) → (tally b os).is_open ≡ b
tally-is_open b [] = refl
tally-is_open b (o ∷ os) = tally-is_open b os

-- What an action does to the summary: on a closed socket nothing is read or written.
abbrev pub act : Action → Summary → Summary
act connect s = add reaching s
act close s = record s { is_open = false }
act stop_connector s = record s { is_open = false }
act read s = if s.is_open then add reading s else s
act (write message k) s = if s.is_open then add (transmit_sort k) s else s
act (timeout k seconds) s = add (wait_sort k) s
act (reset_timer seconds) s = s

abbrev pub act_all : List Action → Summary → Summary
act_all [] s = s
act_all (a ∷ rest) s = act_all rest (act a s)

summary_of-perform :
    (now : ℕ) (host port : Str) (a : Action) (c : Connector)
    → summary_of (perform now host port a c) ≡ act a (summary_of c)
unfolding perform Connector.on_read Connector.on_write Connector.on_timeout Connector.set_timer
summary_of-perform now host port connect c = tally-append c.is_open c.pending _
summary_of-perform now host port close c = tally-open false c.is_open c.pending
summary_of-perform now host port stop_connector c = tally-open false c.is_open c.pending
summary_of-perform now host port read c =
    ground (arith, tally-append c.is_open c.pending receive, tally-is_open c.is_open c.pending)
summary_of-perform now host port (write message k) c = ground (
  arith,
  tally-append c.is_open c.pending (transmit message k),
  tally-is_open c.is_open c.pending,
)
summary_of-perform now host port (timeout k seconds) c =
    ground (arith, tally-append c.is_open c.pending (wait k))
summary_of-perform now host port (reset_timer seconds) c = refl

pub summary_of-perform_all :
    (now : ℕ) (host port : Str) (actions : List Action) (c : Connector)
    → summary_of (perform_all now host port actions c) ≡ act_all actions (summary_of c)
unfolding perform_all
summary_of-perform_all now host port [] c = refl
summary_of-perform_all now host port (a ∷ rest) c =
    summary_of-perform_all now host port rest (perform now host port a c)
    ∙ ap (act_all rest) (summary_of-perform now host port a c)

pub act_all-append :
    (xs ys : List Action) (s : Summary) → act_all (xs ++ ys) s ≡ act_all ys (act_all xs s)
act_all-append [] ys s = refl
act_all-append (x ∷ xs) ys s = act_all-append xs ys (act x s)
