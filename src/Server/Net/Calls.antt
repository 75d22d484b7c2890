-- ===== src/Server/Net/Calls.antt =====
-- The server's side of a step: what a call leaves as it is, and when it starts a connection.
use virtual_flight_radar_bac.Common.{
  ◌<◌, ◌≡◌, refl, Bool, true, false, not, ◌&&◌, none, some, [], ◌∷◌, ltb, arith, length, Bool-cases,
  inl, inr, ltb→lt,
}
use virtual_flight_radar_bac.Common.Text.{Str}
use virtual_flight_radar_bac.Server.{
  Answer, gives, fails, Connection, Slots, Server, close_current, accept_next, max_clients,
  is_connected, attempt, admit, attempt_connection, send,
}
use virtual_flight_radar_bac.Server.Slots.{live}
use virtual_flight_radar_bac.Server.Invariant.{IsValid}
use virtual_flight_radar_bac.Server.Interface.{Socket}
use virtual_flight_radar_bac.Server.Net.{has_free, is_started}

pub attempt_connection-running :
    {S : Type 0} (error : Bool) (current : Answer Str) (made : Answer (Connection S)) (s : Server S)
    → (attempt_connection error current made s).0.running ≡ s.running
unfolding attempt_connection attempt admit
attempt_connection-running true current made s = refl
attempt_connection-running false fails made s = ground arith
attempt_connection-running false (gives address) made s = ground arith

pub send-running :
    {S : Type 0} (takes : S → Str → Answer Bool) (msg : Str) (s : Server S)
    → (send takes msg s).running ≡ s.running
unfolding send
send-running takes msg s = ground arith

pub live-has_free : (cs : Slots Socket) → live cs < length cs → has_free cs ≡ true
unfolding has_free
live-has_free [] h = absurd (omega arith)
live-has_free (none ∷ cs) h = refl
live-has_free (some c ∷ cs) h = live-has_free cs (omega arith)

-- A server lets nobody in where the interface has no address to give.
pub attempt_connection-fails :
    (made : Answer (Connection Socket)) (s : Server Socket)
    → attempt_connection false fails made s ≡ (s, close_current ∷ accept_next ∷ [])
unfolding attempt_connection attempt
attempt_connection-fails made s = ground arith

pub is_started-valid :
    (s : Server Socket) (address : Str)
    → IsValid s
    → is_started s address ≡ (ltb s.active max_clients && not (is_connected s.connections address))
unfolding is_started
is_started-valid s address v = elim (Bool-cases (ltb s.active max_clients)) [
  | inl room ↦
      rw (room, live-has_free s.connections (omega (arith, v.counted, v.sized, ltb→lt _ _ room)))
        (ground arith)
  | inr full ↦ rw full refl
]
