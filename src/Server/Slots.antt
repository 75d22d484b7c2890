-- ===== src/Server/Slots.antt =====
-- Facts about the array of connections.
use virtual_flight_radar_bac.Common.{
  ℕ, suc, ◌+◌, ◌≤◌, ◌<◌, ◌≡◌, refl, Bool, true, false, ◌||◌, Option, none, some, [], ◌∷◌, arith,
  if◌then◌else◌, length, ap, map, ◌%◌,
}
use virtual_flight_radar_bac.Common.Text.{Str, str_eq, str_eq_iff}
use virtual_flight_radar_bac.Server.{
  Answer, gives, fails, Connection, Slots, is_connected, place, reset_all, send_all, written,
}

module _ {S : Type 0} where
  -- The number of connections.
  abbrev pub live : Slots S → ℕ
  live [] = 0
  live (none ∷ cs) = live cs
  live (some c ∷ cs) = suc (live cs)

  -- No address has two connections.
  abbrev pub IsDistinct : Slots S → Type 0
  IsDistinct [] = Unit {0}
  IsDistinct (none ∷ cs) = IsDistinct cs
  IsDistinct (some c ∷ cs) = (is_connected cs c.address ≡ false) × IsDistinct cs

  pub live-le-length : (cs : Slots S) → live cs ≤ length cs
  live-le-length [] = omega arith
  live-le-length (none ∷ cs) = omega (arith, live-le-length cs)
  live-le-length (some c ∷ cs) = omega (arith, live-le-length cs)

  -- While a slot is free, what `startConnection` gives is placed.
  pub place-room :
      (cs : Slots S) (c : Connection S)
      → live cs < length cs
      → (cs' : Slots S) × (place cs (gives c) ≡ gives (cs', true))
        × (live cs' ≡ suc (live cs))
        × (length cs' ≡ length cs)
        × ((address : Str)
            → is_connected cs' address ≡ (str_eq c.address address || is_connected cs address))
        × (is_connected cs c.address ≡ false → IsDistinct cs → IsDistinct cs')
  unfolding place is_connected
  place-room [] c h = absurd (omega arith)
  place-room (none ∷ cs) c h = (some c ∷ cs, refl, refl, refl, λ address. refl, λ h v. (h, v))
  place-room (some b ∷ cs) c h =
      let (cs', e, n, l, has, distinct) = place-room cs c (omega arith) in
      (
        some b ∷ cs',
        rw e,
        omega arith,
        omega arith,
        λ address. ground (arith, has address),
        λ fresh v. ground (
          arith,
          has b.address,
          distinct,
          str_eq_iff b.address c.address,
          str_eq_iff c.address b.address,
        ),
      )

  pub place-fails : (cs : Slots S) → live cs < length cs → place cs fails ≡ fails
  unfolding place
  place-fails [] h = absurd (omega arith)
  place-fails (none ∷ cs) h = refl
  place-fails (some b ∷ cs) h = rw (place-fails cs (omega arith))

  pub reset_all-live : (cs : Slots S) → live (reset_all cs) ≡ 0
  unfolding reset_all
  reset_all-live [] = refl
  reset_all-live (c ∷ cs) = reset_all-live cs

  pub reset_all-length : (cs : Slots S) → length (reset_all cs) ≡ length cs
  unfolding reset_all
  reset_all-length [] = refl
  reset_all-length (c ∷ cs) = ap suc (reset_all-length cs)

  pub reset_all-IsDistinct : (cs : Slots S) → IsDistinct (reset_all cs)
  unfolding reset_all
  reset_all-IsDistinct [] = tt
  reset_all-IsDistinct (c ∷ cs) = reset_all-IsDistinct cs

  -- What `send` leaves of a slot.
  abbrev pub after_write :
      (S → Str → Answer Bool) → Str → Option (Connection S) → Option (Connection S)
  after_write write msg none = none
  after_write write msg (some c) = if written (write c.socket msg) then some c else none

  pub send_all-connections :
      (write : S → Str → Answer Bool) (msg : Str) (cs : Slots S) (active : ℕ)
      → (send_all write msg cs active).0 ≡ map (after_write write msg) cs
  unfolding send_all
  send_all-connections write msg [] active = refl
  send_all-connections write msg (none ∷ cs) active =
      ap (◌∷◌ none) (send_all-connections write msg cs active)
  send_all-connections write msg (some c ∷ cs) active = ground (
    arith,
    send_all-connections write msg cs active,
    send_all-connections write msg cs ((active + 255) % 256),
  )

  -- The count stays that of the connections, here with `extra` ones outside the list.
  pub send_all-active :
      (write : S → Str → Answer Bool) (msg : Str) (cs : Slots S) (extra n : ℕ)
      → n < 256
      → n ≡ extra + live cs
      → (send_all write msg cs n).1 ≡ extra + live (map (after_write write msg) cs)
  unfolding send_all
  send_all-active write msg [] extra n h e = e
  send_all-active write msg (none ∷ cs) extra n h e = send_all-active write msg cs extra n h e
  send_all-active write msg (some c ∷ cs) extra n h e = ground (
    arith,
    send_all-active write msg cs (suc extra) n h,
    send_all-active write msg cs extra ((n + 255) % 256),
  )

  pub map-live :
      (write : S → Str → Answer Bool) (msg : Str) (cs : Slots S)
      → live (map (after_write write msg) cs) ≤ live cs
  map-live write msg [] = omega arith
  map-live write msg (none ∷ cs) = map-live write msg cs
  map-live write msg (some c ∷ cs) = ground (arith, map-live write msg cs)

  pub map-length :
      (write : S → Str → Answer Bool) (msg : Str) (cs : Slots S)
      → length (map (after_write write msg) cs) ≡ length cs
  map-length write msg [] = refl
  map-length write msg (c ∷ cs) = ap suc (map-length write msg cs)

  is_connected-map :
      (write : S → Str → Answer Bool) (msg : Str) (cs : Slots S) (address : Str)
      → is_connected cs address ≡ false
      → is_connected (map (after_write write msg) cs) address ≡ false
  unfolding is_connected
  is_connected-map write msg [] address h = refl
  is_connected-map write msg (none ∷ cs) address h = is_connected-map write msg cs address h
  is_connected-map write msg (some c ∷ cs) address h =
      ground (arith, is_connected-map write msg cs address)

  pub map-IsDistinct :
      (write : S → Str → Answer Bool) (msg : Str) (cs : Slots S)
      → IsDistinct cs
      → IsDistinct (map (after_write write msg) cs)
  map-IsDistinct write msg [] v = tt
  map-IsDistinct write msg (none ∷ cs) v = map-IsDistinct write msg cs v
  map-IsDistinct write msg (some c ∷ cs) v =
      ground (arith, map-IsDistinct write msg cs v.1, is_connected-map write msg cs c.address v.0)
