-- ===== src/Server/Invariant.antt =====
-- The invariant of the server, over all that can happen to it.
use virtual_flight_radar_bac.Common.{
  ◌≤◌, ◌<◌, ◌≡◌, refl, inl, inr, Bool, true, false, ◌||◌, List, [], ◌∷◌, arith, length, All,
  Bool-cases, ◌==◌,
}
use virtual_flight_radar_bac.Common.Text.{Str}
use virtual_flight_radar_bac.Server.{
  Answer, gives, fails, Connection, Server, max_clients, initial, run, stop, is_connected, admit,
  attempt, attempt_connection, send, is_empty,
}
use virtual_flight_radar_bac.Server.Slots.{
  live, IsDistinct, place-room, place-fails, reset_all-live, reset_all-length, reset_all-IsDistinct,
  send_all-connections, send_all-active, map-length, map-IsDistinct, live-le-length,
}

-- What can happen to a server: calls of the program, and attempts of a client to connect.
pub data Event (S : Type 0) : Type 0 where
  runs stops : Event S
  sends : (S → Str → Answer Bool) → Str → Event S
  attempts : Bool → Answer Str → Answer (Connection S) → Event S

module _ {S : Type 0} where
  -- The count is that of the connections, and no two connections have one address.
  pub record IsValid (s : Server S) : Type 0 where
    pub counted : s.active ≡ live s.connections
    pub sized : length s.connections ≡ max_clients
    pub distinct : IsDistinct s.connections

  -- The interface gives a connection to the address that it names.
  abbrev pub IsConsistent : Answer Str → Answer (Connection S) → Type 0
  IsConsistent (gives address) (gives c) = c.address ≡ address
  IsConsistent _ _ = Unit {0}

  pub initial-IsValid : IsValid initial
  unfolding initial
  initial-IsValid = record { counted = refl; sized = refl; distinct = tt }

  admit-IsValid :
      (s : Server S) (start : Answer (Connection S)) (address : Str)
      → IsValid s
      → s.active < max_clients
      → is_connected s.connections address ≡ false
      → IsConsistent (gives address) start
      → IsValid (admit s start).0
  unfolding admit
  admit-IsValid s fails address v room new same =
      rw (place-fails s.connections (omega (arith, v.counted, v.sized)), admit) v
  admit-IsValid s (gives c) address v room new same =
      let (cs', e, n, l, has, distinct) =
        place-room s.connections c (omega (arith, v.counted, v.sized)) in
      rw (e, admit)
        (record {
          counted = ground (arith, v.counted);
          sized = ground (arith, v.sized);
          distinct = distinct (rw same new) v.distinct;
        })

  pub attempt_connection-IsValid :
      (error : Bool) (current : Answer Str) (start : Answer (Connection S)) (s : Server S)
      → IsConsistent current start
      → IsValid s
      → IsValid (attempt_connection error current start s).0
  unfolding attempt_connection attempt
  attempt_connection-IsValid true current start s c v = v
  attempt_connection-IsValid false fails start s c v = ground arith
  attempt_connection-IsValid false (gives address) start s c v =
      ground (arith, admit-IsValid s start address v)

  pub send-IsValid :
      (write : S → Str → Answer Bool) (msg : Str) (s : Server S)
      → IsValid s
      → IsValid (send write msg s)
  unfolding send
  send-IsValid write msg s v =
      let cs = send_all-connections write msg s.connections s.active in
      let small = live-le-length s.connections in
      elim (Bool-cases (is_empty msg || (s.active == 0))) [
        | inl idle ↦ rw (idle, send) v
        | inr busy ↦
            rw (busy, send)
              (record {
                counted = rw cs (
                    omega (
                      arith,
                      send_all-active write msg s.connections 0 s.active
                          (omega (arith, v.counted, v.sized)) (omega (arith, v.counted)),
                    ));
                sized = rw cs (rw (map-length write msg s.connections) v.sized);
                distinct = rw cs (map-IsDistinct write msg s.connections v.distinct);
              })
      ]

  pub stop-IsValid : (s : Server S) → IsValid s → IsValid (stop s).0
  unfolding stop
  stop-IsValid s v = ground (
    arith,
    reset_all-live s.connections,
    reset_all-length s.connections,
    reset_all-IsDistinct s.connections,
  )

  unfoldable pub step : Server S → Event S → Server S
  step s runs = (run s).0
  step s stops = (stop s).0
  step s (sends write msg) = send write msg s
  step s (attempts error current start) = (attempt_connection error current start s).0

  unfoldable pub run_all : Server S → List (Event S) → Server S
  unfolding step
  run_all s [] = s
  run_all s (e ∷ es) = run_all (step s e) es

  abbrev pub IsPossible : Event S → Type 0
  IsPossible (attempts error current start) = IsConsistent current start
  IsPossible _ = Unit {0}

  pub step-IsValid : (s : Server S) (e : Event S) → IsPossible e → IsValid s → IsValid (step s e)
  unfolding step run
  step-IsValid s runs p v = record { counted = v.counted; sized = v.sized; distinct = v.distinct }
  step-IsValid s stops p v = stop-IsValid s v
  step-IsValid s (sends write msg) p v = send-IsValid write msg s v
  step-IsValid s (attempts error current start) p v =
      attempt_connection-IsValid error current start s p v

  run_all-step :
      (s : Server S) (es : List (Event S)) → All IsPossible es → IsValid s → IsValid (run_all s es)
  unfolding run_all
  run_all-step s [] p v = v
  run_all-step s (e ∷ es) p v = run_all-step (step s e) es p.1 (step-IsValid s e p.0 v)

  -- Whatever is called and whoever connects, if the interface gives a connection to the address that
  -- it names, the count is that of the connections in the three slots, so that it is at most three,
  -- and no address is connected twice.
  pub run_all-IsValid :
      (es : List (Event S))
      → All IsPossible es
      → let s = run_all initial es in
        (s.active ≡ live s.connections) × (s.active ≤ max_clients) × IsDistinct s.connections
  run_all-IsValid es p =
      let s = run_all initial es in
      let v = run_all-step initial es p initial-IsValid in
      (v.counted, omega (arith, v.counted, v.sized, live-le-length s.connections), v.distinct)
