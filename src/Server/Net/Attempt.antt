-- ===== src/Server/Net/Attempt.antt =====
-- The handler of an accept keeps the invariant, and no exception of `remote_endpoint` escapes from it.
use mathlib.Core.Path.{subst}
use virtual_flight_radar_bac.Common.{
  ◌≡◌, ◌⊎◌, refl, sym, ◌∙◌, ap, Bool, true, false, not, ◌&&◌, some, List, [], ◌∷◌, ltb,
  if◌then◌else◌, arith, length, Bool-cases, Option-cases, inl, inr,
}
use virtual_flight_radar_bac.Common.Text.{Str}
use virtual_flight_radar_bac.Server.{
  gives, fails, Connection, close_current, accept_next, max_clients, is_connected,
  attempt_connection,
}
use virtual_flight_radar_bac.Server.Slots.{live}
use virtual_flight_radar_bac.Server.Invariant.{IsValid, attempt_connection-IsValid}
use virtual_flight_radar_bac.Server.Accept.{attempt_connection-outcome}
use virtual_flight_radar_bac.Server.Interface
use virtual_flight_radar_bac.Server.Interface.{
  Socket, no_socket, Outcome, returns, throws, escapes, Interface, get_address, get_current_address,
  start_connection, connection_of, on_accept, accepted, rejected, perform, perform_all, write,
}
use virtual_flight_radar_bac.Server.Net.{Net, is_started, attempt_on, handle, settle}
use virtual_flight_radar_bac.Server.Net.Sound.{load, is_gone, IsFine, IsSound, on_accept-IsFine}
use virtual_flight_radar_bac.Server.Net.Calls.{
  attempt_connection-running, attempt_connection-fails, is_started-valid,
}

-- The handler of an accept ends by accepting again, with a closed socket.
pub again-IsFine :
    (i : Interface)
    → load true i ≡ 0
    → i.socket.is_open ≡ false
    → IsFine true (perform_all (accept_next ∷ []) i)
unfolding perform_all
again-IsFine i none_left closed = on_accept-IsFine i none_left closed

pub closed-IsFine :
    (i : Interface)
    → load true i ≡ 0
    → IsFine true (perform_all (close_current ∷ accept_next ∷ []) i)
unfolding perform_all perform Interface.close Interface.close_socket
closed-IsFine i none_left = on_accept-IsFine (Interface.close i) none_left (ground arith)

pub perform_all-is_accepting :
    (i : Interface)
    → ((perform_all (accept_next ∷ []) i).is_accepting ≡ i.is_accepting)
      × ((perform_all (close_current ∷ accept_next ∷ []) i).is_accepting ≡ i.is_accepting)
unfolding perform_all perform on_accept Interface.close
perform_all-is_accepting i = ground arith

pub attempt_on-throws :
    (n : Net)
    → IsValid n.server
    → get_current_address n.interface ≡ throws
    → attempt_on false n ≡ some (settle n n.interface (n.server, close_current ∷ accept_next ∷ []))
unfolding attempt_on
attempt_on-throws n v e = rw (e, attempt_on, attempt_connection-fails fails n.server) refl

-- What the handler of an accept is called with: nothing else is under way.
pub record IsTurn (n : Net) : Type 0 where
  pub begun : n.begun ≡ true
  pub alone : load true n.interface ≡ 0
  pub valid : IsValid n.server
  pub same : n.interface.is_accepting ≡ n.server.running
  pub quiet : (if n.server.running then 0 else live n.server.connections) ≡ 0
  pub ends : n.interface.socket.is_open && not n.interface.is_accepting ≡ false
  pub known : n.interface.socket.is_open && is_gone n.interface.socket.peer ≡ false

pub refused-IsSound :
    (n : Net)
    → IsTurn n
    → IsSound (settle n n.interface (n.server, close_current ∷ accept_next ∷ []))
refused-IsSound n t = record {
  valid = t.valid;
  same = (perform_all-is_accepting n.interface).1 ∙ t.same;
  quiet = t.quiet;
  fine = rw t.begun (closed-IsFine n.interface t.alone);
}

pub attempt_on-true :
    (n : Net)
    → IsTurn n
    → n.interface.socket.is_open ≡ false
    → (n' : Net) × (attempt_on true n ≡ some n') × IsSound n'
unfolding attempt_on attempt_connection
attempt_on-true n t closed = (
  settle n n.interface (n.server, accept_next ∷ []),
  refl,
  record {
    valid = t.valid;
    same = (perform_all-is_accepting n.interface).0 ∙ t.same;
    quiet = t.quiet;
    fine = rw t.begun (again-IsFine n.interface t.alone closed);
  },
)

pub current :
    (i : Interface)
    → i.socket.is_open && is_gone i.socket.peer ≡ false
    → (i.socket.is_open ≡ false) × (get_current_address i ≡ throws)
      ⊎ (address : Str) × (i.socket.is_open ≡ true)
        × (get_current_address i ≡ returns address)
        × (start_connection i ≡ (
          returns (record { socket = i.socket; address = address }),
          record i { socket = no_socket },
        ))
unfolding get_current_address get_address start_connection connection_of
current i known = elim (Bool-cases i.socket.is_open) [
  | inr closed ↦ inl (closed, rw (closed, get_address) refl)
  | inl opened ↦ elim (Option-cases i.socket.peer) [
    | inl nobody ↦ absurd (ground arith)
    | inr (address, here) ↦ inr (
      address,
      opened,
      simp (opened, here, get_address),
      simp (opened, here, get_address, connection_of),
    )
  ]
]

pub attempt_on-returns :
    (n : Net) (address : Str) (c : Connection Socket) (i : Interface)
    → get_current_address n.interface ≡ returns address
    → start_connection n.interface ≡ (returns c, i)
    → attempt_on false n
      ≡ some (
          settle n
            (if is_started n.server address then i else n.interface)
            (attempt_connection false (gives address) (gives c) n.server))
unfolding attempt_on
attempt_on-returns n address c i e f = rw (e, f, attempt_on) refl

pub if-true : {b : Bool} (A B : Type 0) → b ≡ true → (if b then A else B) → A
if-true A B e x = subst (λ b. if b then A else B) e x

pub if-false : {b : Bool} (A B : Type 0) → b ≡ false → (if b then A else B) → B
if-false A B e x = subst (λ b. if b then A else B) e x

-- A client of which the address is known is let in or refused.
pub attempt_on-address :
    (n : Net) (address : Str) (c : Connection Socket)
    → IsTurn n
    → c.address ≡ address
    → n.interface.socket.is_open ≡ true
    → IsSound (
        settle n
          (if is_started n.server address
            then record n.interface { socket = no_socket }
            else n.interface)
          (attempt_connection false (gives address) (gives c) n.server))
attempt_on-address n address c t same opened =
    let s = n.server in
    let i = record n.interface { socket = no_socket } in
    let outcome = attempt_connection-outcome s address address c t.valid same in
    elim (Bool-cases (ltb s.active max_clients && not (is_connected s.connections address))) [
      | inl let_in ↦
          let (here, count, effects) = if-true _ _ let_in outcome in
          let stays = attempt_connection-running false (gives address) (gives c) s in
          rw (is_started-valid s address t.valid, let_in, effects)
            (record {
              valid = attempt_connection-IsValid false (gives address) (gives c) s same t.valid;
              same = (perform_all-is_accepting i).0 ∙ t.same ∙ sym stays;
              quiet = rw stays (ground (arith, t.same, t.ends, opened));
              fine = rw t.begun (again-IsFine i t.alone refl);
            })
      | inr refused ↦
          let (unchanged, effects) = if-false _ _ refused outcome in
          rw (is_started-valid s address t.valid, refused, effects, unchanged) (refused-IsSound n t)
    ]

pub attempt_on-false :
    (n : Net) → IsTurn n → (n' : Net) × (attempt_on false n ≡ some n') × IsSound n'
attempt_on-false n t = elim (current n.interface t.known) [
  | inl (closed, e) ↦ (_, attempt_on-throws n t.valid e, refused-IsSound n t)
  | inr (address, opened, e, f) ↦ (
    _,
    attempt_on-returns n address (record { socket = n.interface.socket; address = address })
        (record n.interface { socket = no_socket }) e f,
    attempt_on-address n address (record { socket = n.interface.socket; address = address }) t refl
        opened,
  )
]

-- The state that the handler of the only accept that is done begins with.
pub turn :
    (n : Net) (error : Bool)
    → n.interface.done ≡ error ∷ []
    → IsSound n
    → IsTurn (record n { interface = record n.interface { done = [] } })
turn n error e s = record {
  begun = ground (arith, s.fine.most, e);
  alone = ground (arith, s.fine.most, e);
  valid = s.valid;
  same = s.same;
  quiet = s.quiet;
  ends = s.fine.ends;
  known = s.fine.known;
}

pub handle-IsSound :
    (done : List Bool) (n : Net)
    → n.interface.done ≡ done
    → IsSound n
    → (n' : Net) × (handle done n ≡ some n') × IsSound n'
unfolding handle
handle-IsSound [] n e s = (n, refl, s)
handle-IsSound (true ∷ []) n e s =
    attempt_on-true _ (turn n true e s) (ground (arith, s.fine.clear, e))
handle-IsSound (false ∷ []) n e s = attempt_on-false _ (turn n false e s)
handle-IsSound (x ∷ y ∷ done) n e s = absurd (omega (arith, s.fine.most, ap length e))
