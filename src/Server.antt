-- ===== src/Server.antt =====
-- include/server/Server.hpp and include/server/Connection.hpp: the clients that receive the
-- reports. The socket and the network interface enter by what their calls answer; a call that
-- throws a `SocketException` answers `fails`. The mutex makes each call one step.
pub mod Slots
pub mod Invariant
pub mod Accept
pub mod Interface
pub mod Net
use virtual_flight_radar_bac.Common.{
  ℕ, zero, suc, ◌+◌, ◌-◌, ◌%◌, ◌≡◌, refl, Bool, true, false, not, ◌&&◌, ◌||◌, Option, none, some,
  List, [], ◌∷◌, ◌++◌, ltb, ◌==◌, if◌then◌else◌,
}
use virtual_flight_radar_bac.Common.Text.{Str, str_eq}

-- S_MAX_CLIENTS, by SERVER_MAX_CLIENTS of include/parameters.h.
abbrev pub max_clients : ℕ
max_clients = 3

pub data Answer {ℓ} (A : Type ℓ) : Type ℓ where
  gives : A → Answer A
  fails : Answer A

-- A connection: its socket, and the address that the socket had when it was made.
pub record Connection (S : Type 0) : Type 0 where
  pub socket : S
  pub address : Str

abbrev pub Slots : Type 0 → Type 0
Slots S = List (Option (Connection S))

-- `active` is a `uint8_t`.
pub record Server (S : Type 0) : Type 0 where
  pub connections : Slots S
  pub active : ℕ
  pub running : Bool

-- What the calls on the network interface do to it.
pub data Effect : Type 0 where
  close_current stop_interface accept_next : Effect

-- `Connection::write`: an exception of the socket counts as a failure.
unfoldable pub written : Answer Bool → Bool
written (gives b) = b
written fails = false

abbrev pub is_empty : Str → Bool
is_empty [] = true
is_empty (c ∷ s) = false

module _ {S : Type 0} where
  -- A new server: the array holds null pointers.
  unfoldable pub initial : Server S
  initial = record { connections = none ∷ none ∷ none ∷ []; active = 0; running = false }

  -- The guarded part of `run`; the thread that it starts calls `accept`.
  unfoldable pub run : Server S → Server S × List Effect
  run s = (record s { running = true }, accept_next ∷ [])

  unfoldable pub reset_all : Slots S → Slots S
  reset_all [] = []
  reset_all (c ∷ cs) = none ∷ reset_all cs

  unfoldable pub stop : Server S → Server S × List Effect
  unfolding reset_all
  stop s =
      if s.running
      then (
        record { connections = reset_all s.connections; active = 0; running = false },
        stop_interface ∷ [],
      )
      else (s, [])

  -- `isConnected`.
  unfoldable pub is_connected : Slots S → Str → Bool
  is_connected [] address = false
  is_connected (none ∷ cs) address = is_connected cs address
  is_connected (some c ∷ cs) address = str_eq c.address address || is_connected cs address

  -- The loop over the slots: the first free one takes what `startConnection` gives. The flag says
  -- whether a connection was made; `fails` is the exception, which leaves all as it was.
  unfoldable pub place : Slots S → Answer (Connection S) → Answer (Slots S × Bool)
  place [] start = gives ([], false)
  place (none ∷ cs) fails = fails
  place (none ∷ cs) (gives c) = gives (some c ∷ cs, true)
  place (some b ∷ cs) start = elim (place cs start) [
    | fails ↦ fails
    | gives (cs', made) ↦ gives (some b ∷ cs', made)
  ]

  unfoldable pub admit : Server S → Answer (Connection S) → Server S × List Effect
  unfolding place
  admit s start = elim (place s.connections start) [
    | fails ↦ (s, close_current ∷ [])
    | gives (cs, made) ↦ (
      record s { connections = cs; active = if made then (s.active + 1) % 256 else s.active },
      [],
    )
  ]

  -- The `try` block of `attemptConnection`: `get_currentAddress` is called only when there is room,
  -- and again, to be logged, where the connection is refused; `close` follows an exception too.
  unfoldable pub attempt : Server S → Answer Str → Answer (Connection S) → Server S × List Effect
  attempt s current start =
      if ltb s.active max_clients
      then elim current [
        | fails ↦ (s, close_current ∷ [])
        | gives address ↦
            if is_connected s.connections address then (s, close_current ∷ []) else admit s start
      ]
      else (s, close_current ∷ [])

  -- `attemptConnection(error)`; it always accepts again.
  unfoldable pub attempt_connection :
      Bool → Answer Str → Answer (Connection S) → Server S → Server S × List Effect
  unfolding attempt
  attempt_connection true current start s = (s, accept_next ∷ [])
  attempt_connection false current start s =
      let (s', effects) = attempt s current start in (s', effects ++ accept_next ∷ [])

  -- The loop of `send`, with the number of connections still counted.
  unfoldable pub send_all : (S → Str → Answer Bool) → Str → Slots S → ℕ → Slots S × ℕ
  unfolding written
  send_all write msg [] active = ([], active)
  send_all write msg (none ∷ cs) active =
      let (cs', active') = send_all write msg cs active in (none ∷ cs', active')
  send_all write msg (some c ∷ cs) active =
      let kept = written (write c.socket msg) in
      let (cs', active') = send_all write msg cs (if kept then active else (active + 255) % 256) in
      ((if kept then some c else none) ∷ cs', active')

  unfoldable pub send : (S → Str → Answer Bool) → Str → Server S → Server S
  unfolding send_all
  send write msg s =
      if is_empty msg || (s.active == 0)
      then s
      else let (cs, active) = send_all write msg s.connections s.active in
        record s { connections = cs; active = active }
