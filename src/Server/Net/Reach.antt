-- ===== src/Server/Net/Reach.antt =====
-- What holds of the server and its interface, whatever happens to them.
use mathlib.Core.Path.{subst}
use virtual_flight_radar_bac.Common.{
  ◌≤◌, ◌≡◌, refl, sym, ◌∙◌, Bool, true, false, not, ◌&&◌, none, some, List, [], ◌∷◌, if◌then◌else◌,
  arith, All, Bool-cases, inl, inr,
}
use virtual_flight_radar_bac.Common.Text.{Str}
use virtual_flight_radar_bac.Server
use virtual_flight_radar_bac.Server.{
  Answer, gives, fails, Connection, Slots, Server, Effect, close_current, stop_interface,
  accept_next, max_clients, is_connected, attempt, admit, attempt_connection, send,
}
use virtual_flight_radar_bac.Server.Slots.{live, IsDistinct, live-le-length, reset_all-live}
use virtual_flight_radar_bac.Server.Invariant.{IsValid, send-IsValid, stop-IsValid}
use virtual_flight_radar_bac.Server.Interface
use virtual_flight_radar_bac.Server.Interface.{
  Socket, no_socket, Outcome, returns, throws, escapes, Interface, get_address, get_current_address,
  start_connection, connection_of, on_accept, accepted, rejected, perform, perform_all, write,
}
use virtual_flight_radar_bac.Server.Net.{
  Net, Event, begins, stops, refuses, handles, sends, arrives, step, start, run_all, settle,
}
use virtual_flight_radar_bac.Server.Net.Sound.{
  load, is_due, IsFine, IsSound, on_accept-IsFine, length-zero, accepted-IsFine, rejected-IsFine,
}
use virtual_flight_radar_bac.Server.Net.Calls.{send-running}
use virtual_flight_radar_bac.Server.Net.Attempt.{handle-IsSound}

pub accepted-is_accepting :
    (address : Str) (i : Interface) → (accepted (some address) i).is_accepting ≡ i.is_accepting
unfolding accepted
accepted-is_accepting address i = ground arith

pub rejected-is_accepting : (i : Interface) → (rejected i).is_accepting ≡ i.is_accepting
unfolding rejected
rejected-is_accepting i = ground arith

pub send-quiet :
    (takes : Socket → Str → Answer Bool) (msg : Str) (s : Server Socket)
    → IsValid s
    → (if s.running then 0 else live s.connections) ≡ 0
    → let s' = send takes msg s in (if s'.running then 0 else live s'.connections) ≡ 0
unfolding send
send-quiet takes msg s v q = ground (arith, v.counted)

pub on_accept-is_accepting : (i : Interface) → (on_accept i).is_accepting ≡ i.is_accepting
unfolding on_accept
on_accept-is_accepting i = ground arith

pub begins-IsFine : (i : Interface) → IsFine false i → IsFine true (on_accept i)
begins-IsFine i f =
    let nothing : i.done ≡ [] = length-zero i.done (omega (arith, f.most)) in
    on_accept-IsFine i (omega (arith, f.most)) (ground (arith, f.clear, nothing))

pub arrives-IsSound :
    (address : Str) (n : Net)
    → IsSound n
    → IsSound (record n { interface = accepted (some address) n.interface })
arrives-IsSound address n s = record {
  valid = s.valid;
  same = (accepted-is_accepting address n.interface) ∙ s.same;
  quiet = s.quiet;
  fine = accepted-IsFine n.begun address n.interface s.fine;
}

pub refuses-IsSound :
    (n : Net) → IsSound n → IsSound (record n { interface = rejected n.interface })
refuses-IsSound n s = record {
  valid = s.valid;
  same = (rejected-is_accepting n.interface) ∙ s.same;
  quiet = s.quiet;
  fine = rejected-IsFine n.begun n.interface s.fine;
}

pub stops-IsSound : (n : Net) → IsSound n → IsSound (settle n n.interface (Server.stop n.server))
unfolding Server.stop perform_all perform Interface.stop Interface.close_socket
stops-IsSound n s = record {
  valid = stop-IsValid n.server s.valid;
  same = ground (arith, s.same);
  quiet = ground (arith, s.quiet, reset_all-live n.server.connections);
  fine = ground (arith, s.fine.least, s.fine.most, s.fine.clear, s.fine.ends, s.fine.known);
}

pub begins-IsSound :
    (n : Net)
    → IsSound n
    → IsSound (if n.begun then n else record n { interface = on_accept n.interface; begun = true })
begins-IsSound n s = elim (Bool-cases n.begun) [
  | inl begun ↦ subst IsSound (ground (arith, begun)) s
  | inr new ↦ subst IsSound (ground (arith, new)) (record {
    valid = s.valid;
    same = (on_accept-is_accepting n.interface) ∙ s.same;
    quiet = s.quiet;
    fine = begins-IsFine n.interface (subst (λ b. IsFine b n.interface) new s.fine);
  })
]

pub sends-IsSound :
    (takes : Socket → Str → Answer Bool) (msg : Str) (n : Net)
    → IsSound n
    → IsSound (record n { server = send takes msg n.server })
sends-IsSound takes msg n s = record {
  valid = send-IsValid takes msg n.server s.valid;
  same = s.same ∙ sym (send-running takes msg n.server);
  quiet = send-quiet takes msg n.server s.valid s.quiet;
  fine = s.fine;
}

-- No client is gone before its address has been asked for.
abbrev pub HasPeer : Event → Type 0
HasPeer (arrives none) = ⊥
HasPeer _ = Unit {0}

pub step-IsSound :
    (e : Event) (n : Net) → HasPeer e → IsSound n → (n' : Net) × (step e n ≡ some n') × IsSound n'
unfolding step
step-IsSound begins n p s = (_, refl, begins-IsSound n s)
step-IsSound stops n p s = (_, refl, stops-IsSound n s)
step-IsSound refuses n p s = (_, refl, refuses-IsSound n s)
step-IsSound (arrives none) n p s = absurd p
step-IsSound (arrives (some address)) n p s = (_, refl, arrives-IsSound address n s)
step-IsSound handles n p s = handle-IsSound n.interface.done n refl s
step-IsSound (sends takes msg) n p s = (_, refl, sends-IsSound (write takes) msg n s)

run_all-IsSound :
    (es : List Event) (n : Net)
    → All HasPeer es
    → IsSound n
    → (n' : Net) × (run_all es n ≡ some n') × IsSound n'
unfolding run_all
run_all-IsSound [] n p s = (n, refl, s)
run_all-IsSound (e ∷ es) n p s =
    let (n', eq, s') = step-IsSound e n p.0 s in
    let (n'', eq', s'') = run_all-IsSound es n' p.1 s' in (n'', rw (eq, run_all) eq', s'')

pub start-IsSound : IsSound start
unfolding start Server.initial Server.run Interface.initial
start-IsSound = record {
  valid = record { counted = refl; sized = refl; distinct = tt };
  same = refl;
  quiet = refl;
  fine = record {
    least = omega arith;
    most = omega arith;
    clear = refl;
    ends = refl;
    known = refl;
  };
}

-- Once the server runs on its interface, whatever happens to them, if no client is gone before
-- its address has been asked for: the exception of `remote_endpoint` does not end the program; the count is that of the connections, at most three, and
-- no address is connected twice; while the server runs, exactly one accept is to be called, to be
-- done or to be handled, and once it is stopped nobody is connected; and the socket of the interface
-- is open only while the handler of an accept without an error comes next, so that no accept fails
-- for a socket that is open already.
pub run_all-start :
    (es : List Event)
    → All HasPeer es
    → (n : Net) × (run_all es start ≡ some n)
      × (n.server.active ≡ live n.server.connections)
      × (n.server.active ≤ max_clients)
      × IsDistinct n.server.connections
      × (if n.server.running then load n.begun n.interface ≡ 1 else live n.server.connections ≡ 0)
      × (n.interface.socket.is_open && not (is_due n.interface.done) ≡ false)
run_all-start es p =
    let (n, e, s) = run_all-IsSound es start p start-IsSound in
    (
      n,
      e,
      s.valid.counted,
      omega (arith, s.valid.counted, s.valid.sized, live-le-length n.server.connections),
      s.valid.distinct,
      ground (arith, s.quiet, s.same, s.fine.least, s.fine.most),
      s.fine.clear,
    )
