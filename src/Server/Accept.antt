-- ===== src/Server/Accept.antt =====
-- Who is let in, and who still receives.
use virtual_flight_radar_bac.Common.{
  suc, ◌<◌, ◌≡◌, refl, ap, inl, inr, Bool, false, ◌||◌, ◌&&◌, not, none, some, [], ◌∷◌, arith, ltb,
  if◌then◌else◌, Bool-cases, map, ltb→lt,
}
use virtual_flight_radar_bac.Common.Text.{Str, str_eq}
use virtual_flight_radar_bac.Server.{
  Answer, gives, Connection, Slots, Server, close_current, accept_next, max_clients, is_connected,
  admit, attempt, attempt_connection, send, is_empty,
}
use virtual_flight_radar_bac.Server.Slots.{live, place-room, after_write, send_all-connections}
use virtual_flight_radar_bac.Server.Invariant.{IsValid}

module _ {S : Type 0} where
  admit-gives :
      (s : Server S) (c : Connection S) (other : Str)
      → IsValid s
      → s.active < max_clients
      → let (s', effects) = admit s (gives c) in
        (is_connected s'.connections other
          ≡ (str_eq c.address other || is_connected s.connections other))
        × (s'.active ≡ suc s.active)
        × (effects ≡ [])
  unfolding admit
  admit-gives s c other v room =
      let (cs', e, n, l, has, distinct) =
        place-room s.connections c (omega (arith, v.counted, v.sized)) in
      rw (e, admit) (has other, omega arith, refl)

  -- A valid server lets in a client whose address is known, and whose connection has that address,
  -- exactly when fewer than three are connected and its address is not: then the count grows by
  -- one, this address is connected, each other one is if it was before, and the server accepts
  -- again. Otherwise the state stays as it is and the current socket is closed before that.
  pub attempt_connection-outcome :
      (s : Server S) (address other : Str) (c : Connection S)
      → IsValid s
      → c.address ≡ address
      → let (s', effects) = attempt_connection false (gives address) (gives c) s in
        if ltb s.active max_clients && not (is_connected s.connections address)
        then (is_connected s'.connections other
            ≡ (str_eq address other || is_connected s.connections other))
          × (s'.active ≡ suc s.active)
          × (effects ≡ accept_next ∷ [])
        else (s' ≡ s) × (effects ≡ close_current ∷ accept_next ∷ [])
  unfolding attempt_connection attempt
  attempt_connection-outcome s address other c v same =
      let room = ltb s.active max_clients in
      let admitted = room && not (is_connected s.connections address) in
      elim (Bool-cases admitted) [
        | inl let_in ↦
            rw let_in (ground (arith, admit-gives s c other v (ltb→lt _ _ (ground arith))))
        | inr refused ↦ rw refused (ground arith)
      ]

  map-none :
      (write : S → Str → Answer Bool) (msg : Str) (cs : Slots S)
      → live cs ≡ 0
      → map (after_write write msg) cs ≡ cs
  map-none write msg [] h = refl
  map-none write msg (none ∷ cs) h = ap (◌∷◌ none) (map-none write msg cs h)
  map-none write msg (some c ∷ cs) h = absurd (omega arith)

  -- `send` of a valid server drops exactly the connections to which a write fails; with an empty
  -- text it drops none.
  pub send-connections :
      (write : S → Str → Answer Bool) (msg : Str) (s : Server S)
      → IsValid s
      → (send write msg s).connections
        ≡ (if is_empty msg then s.connections else map (after_write write msg) s.connections)
  unfolding send
  send-connections write msg s v = ground (
    arith,
    send_all-connections write msg s.connections s.active,
    map-none write msg s.connections,
    v.counted,
  )
