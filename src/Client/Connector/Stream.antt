-- ===== src/Client/Connector/Stream.antt =====
-- The lines that a connector hands over, however the network cuts the stream of bytes.
use mathlib.Core.List.{append_assoc, append-nil, flatten}
use virtual_flight_radar_bac.Common.{
  ℕ, zero, suc, ◌≤◌, ◌≡◌, refl, sym, true, false, List, [], ◌∷◌, ◌++◌, arith, length, length-append,
}
use virtual_flight_radar_bac.Common.Text.{Str}
use virtual_flight_radar_bac.Client.{success}
use virtual_flight_radar_bac.Client.Connector.{Connector, getline, has_line, handle_received}
use virtual_flight_radar_bac.Client.Connector.Split.{
  split, split-none, split-left, split-flatten, split-append, split-length,
}

-- The reads that succeed while the buffer has a line, with fuel for their number.
unfoldable pub drain : ℕ → Connector → Connector × List Str
drain zero c = (c, [])
drain (suc n) c = elim (has_line c.buffer) [
  | false ↦ (c, [])
  | true ↦
      let c' = (handle_received success c).0 in
      let (c'', lines) = drain n c' in (c'', c'.response ∷ lines)
]

-- The network delivers bytes, and the reads follow. A line has at least one byte.
unfoldable pub receive_chunk : Str → Connector → Connector × List Str
unfolding drain
receive_chunk chunk c =
    let c' = record c { buffer = c.buffer ++ chunk } in drain (length c'.buffer) c'

unfoldable pub receive_all : List Str → Connector → Connector × List Str
unfolding receive_chunk
receive_all [] c = (c, [])
receive_all (chunk ∷ chunks) c =
    let (c', lines) = receive_chunk chunk c in
    let (c'', more) = receive_all chunks c' in (c'', lines ++ more)

received :
    (c : Connector)
    → let c' = (handle_received success c).0 in
      (c'.buffer ≡ (getline c.buffer).1) × (c'.response ≡ (getline c.buffer).0 ++ b'\n' ∷ [])
unfolding handle_received
received c = (refl, refl)

drain-split :
    (n : ℕ) (c : Connector)
    → ((drain n c).1 ≡ (split n c.buffer).0) × ((drain n c).0.buffer ≡ (split n c.buffer).1)
unfolding drain split
drain-split zero c = (refl, refl)
drain-split (suc n) c = ground (arith, drain-split n (handle_received success c).0, received c)

-- One chunk: what is left has no line, and is no longer than what there was.
receive_chunk-split :
    (chunk : Str) (c : Connector)
    → let s = c.buffer ++ chunk in
      ((receive_chunk chunk c).1 ≡ (split (length s) s).0)
      × ((receive_chunk chunk c).0.buffer ≡ (split (length s) s).1)
unfolding receive_chunk
receive_chunk-split chunk c =
    drain-split (length (c.buffer ++ chunk)) (record c { buffer = c.buffer ++ chunk })

receive_all-split :
    (n : ℕ) (chunks : List Str) (c : Connector)
    → has_line c.buffer ≡ false
    → length (c.buffer ++ flatten chunks) ≤ n
    → ((receive_all chunks c).1 ≡ (split n (c.buffer ++ flatten chunks)).0)
      × ((receive_all chunks c).0.buffer ≡ (split n (c.buffer ++ flatten chunks)).1)
unfolding receive_all flatten
receive_all-split n [] c h p = rw (append-nil c.buffer, split-none n c.buffer h) (refl, refl)
receive_all-split n (chunk ∷ chunks) c h p =
    let s = c.buffer ++ chunk in
    let t = flatten chunks in
    let whole : length (s ++ t) ≤ n = rw (append_assoc c.buffer chunk t) p in
    let left = (split (length s) s).1 in
    let c' = (receive_chunk chunk c).0 in
    let (lines, rest) = receive_chunk-split chunk c in
    let clear : has_line c'.buffer ≡ false = rw rest (split-left (length s) s (omega arith)) in
    let short : length (c'.buffer ++ t) ≤ n =
      rw rest (
        omega (arith, whole, split-length (length s) s, length-append left t, length-append s t)) in
    let (more, last) = receive_all-split n chunks c' clear short in
    rw
      (
        sym (append_assoc c.buffer chunk t),
        split-append (length s) n s t (omega arith) whole,
        lines,
        more,
        last,
        rest,
      )
      (refl, refl)

-- However the network cuts what it delivers, the lines that are handed over and what is left in the
-- buffer are the same, for a connector that has read what there was.
pub receive_all-chunks :
    (a b : List Str) (c : Connector)
    → has_line c.buffer ≡ false
    → flatten a ≡ flatten b
    → ((receive_all a c).1 ≡ (receive_all b c).1)
      × ((receive_all a c).0.buffer ≡ (receive_all b c).0.buffer)
receive_all-chunks a b c h e =
    let n = length (c.buffer ++ flatten a) in
    let (la, ra) = receive_all-split n a c h (omega arith) in
    let (lb, rb) = receive_all-split n b c h (rw e (omega arith)) in
    rw (la, ra, lb, rb, e) (refl, refl)

-- The bounded number of reads suffices: where every line that was there has been read, every line
-- that is delivered is read too, and the lines with what is left are all that was there and all that
-- was delivered, byte for byte.
pub receive_all-flatten :
    (chunks : List Str) (c : Connector)
    → has_line c.buffer ≡ false
    → (has_line (receive_all chunks c).0.buffer ≡ false)
      × (flatten (receive_all chunks c).1 ++ (receive_all chunks c).0.buffer
          ≡ c.buffer ++ flatten chunks)
receive_all-flatten chunks c h =
    let s = c.buffer ++ flatten chunks in
    let (lines, rest) = receive_all-split (length s) chunks c h (omega arith) in
    rw (lines, rest) (split-left (length s) s (omega arith), split-flatten (length s) s)
