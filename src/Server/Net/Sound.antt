-- ===== src/Server/Net/Sound.antt =====
-- The invariant of the server and its interface, and what the network does to it.
use virtual_flight_radar_bac.Common.{
  ℕ, zero, suc, ◌+◌, ◌≤◌, ◌≡◌, ◌⊎◌, refl, Bool, true, false, not, ◌&&◌, Option, none, some, List,
  [], ◌∷◌, if◌then◌else◌, arith, length, inl, inr,
}
use virtual_flight_radar_bac.Common.Text.{Str}
use virtual_flight_radar_bac.Server.Slots.{live}
use virtual_flight_radar_bac.Server.Invariant.{IsValid}
use virtual_flight_radar_bac.Server.Interface.{Interface, on_accept, accepted, rejected}
use virtual_flight_radar_bac.Server.Net.{Net}

-- How many accepts are to be called, to be done or to be handled.
abbrev pub load : Bool → Interface → ℕ
load begun i = i.accepts + length i.done + (if begun then 0 else 1)

-- Whether the handler of an accept without an error comes next, and no other.
abbrev pub is_due : List Bool → Bool
is_due (false ∷ []) = true
is_due _ = false

abbrev pub is_gone : Option Str → Bool
is_gone none = true
is_gone (some address) = false

-- The interface, with its thread: at most one accept is under way, and one is while it accepts; its
-- socket is open only between an accept and the handler, with a peer.
pub record IsFine (begun : Bool) (i : Interface) : Type 0 where
  pub least : (if i.is_accepting then 1 else 0) ≤ load begun i
  pub most : load begun i ≤ 1
  pub clear : i.socket.is_open && not (is_due i.done) ≡ false
  pub ends : i.socket.is_open && not i.is_accepting ≡ false
  pub known : i.socket.is_open && is_gone i.socket.peer ≡ false

pub record IsSound (n : Net) : Type 0 where
  pub valid : IsValid n.server
  pub same : n.interface.is_accepting ≡ n.server.running
  pub quiet : (if n.server.running then 0 else live n.server.connections) ≡ 0
  pub fine : IsFine n.begun n.interface

pub on_accept-IsFine :
    (i : Interface) → load true i ≡ 0 → i.socket.is_open ≡ false → IsFine true (on_accept i)
unfolding on_accept
on_accept-IsFine i none_left closed = ground arith

pub ℕ-cases : (n : ℕ) → (n ≡ 0) ⊎ ((k : ℕ) × (n ≡ suc k))
ℕ-cases zero = inl refl
ℕ-cases (suc k) = inr (k, refl)

pub length-zero : (done : List Bool) → length done ≡ 0 → done ≡ []
length-zero [] h = refl
length-zero (e ∷ done) h = absurd (omega (arith, h))

pub accepted-IsFine :
    (begun : Bool) (address : Str) (i : Interface)
    → IsFine begun i
    → IsFine begun (accepted (some address) i)
unfolding accepted
accepted-IsFine begun address i f = elim (ℕ-cases i.accepts) [
  | inl empty ↦ rw (empty, accepted) f
  | inr (n, more) ↦
      let nothing : i.done ≡ [] = length-zero i.done (omega (arith, more, f.most)) in
      rw (more, nothing) (ground (arith, f.least, f.most, more, nothing))
]

pub rejected-IsFine : (begun : Bool) (i : Interface) → IsFine begun i → IsFine begun (rejected i)
unfolding rejected
rejected-IsFine begun i f = elim (ℕ-cases i.accepts) [
  | inl empty ↦ rw (empty, rejected) f
  | inr (n, more) ↦
      let nothing : i.done ≡ [] = length-zero i.done (omega (arith, more, f.most)) in
      rw (more, nothing) (ground (arith, f.least, f.most, more, nothing))
]
