-- ===== src/Server/Net/Running.antt =====
-- A server runs until it is stopped.
use virtual_flight_radar_bac.Common.{◌≡◌, refl, true, false, some, List, [], ◌∷◌, Bool, arith}
use virtual_flight_radar_bac.Server.{Connection, gives, fails}
use virtual_flight_radar_bac.Common.Text.{Str}
use virtual_flight_radar_bac.Server.Interface.{
  Socket, Interface, Outcome, returns, throws, escapes, get_current_address, start_connection,
  write,
}
use virtual_flight_radar_bac.Server.Net.{
  Net, Event, begins, stops, refuses, handles, sends, arrives, attempt_on, handle, step, attempted,
}
use virtual_flight_radar_bac.Server.Net.Calls.{attempt_connection-running, send-running}

attempted-running :
    (n n' : Net) (address : Str) (o : Outcome (Connection Socket) × Interface)
    → attempted n address o ≡ some n'
    → n'.server.running ≡ n.server.running
attempted-running n n' address (returns c, i) e =
    ground (arith, e, attempt_connection-running false (gives address) (gives c) n.server)
attempted-running n n' address (throws, i) e =
    ground (arith, e, attempt_connection-running false (gives address) fails n.server)
attempted-running n n' address (escapes, i) e =
    ground (arith, e, attempt_connection-running false (gives address) fails n.server)

pub attempt_on-running :
    (error : Bool) (n n' : Net)
    → attempt_on error n ≡ some n'
    → n'.server.running ≡ n.server.running
unfolding attempt_on
attempt_on-running true n n' e =
    ground (arith, attempt_connection-running true fails fails n.server)
attempt_on-running false n n' e = by_address (get_current_address n.interface) refl
  where
    by_address :
        (o : Outcome Str)
        → get_current_address n.interface ≡ o
        → n'.server.running ≡ n.server.running
    by_address escapes same = absurd (ground (arith, e, same))
    by_address throws same =
        ground (arith, e, same, attempt_connection-running false fails fails n.server)
    by_address (returns address) same =
        attempted-running n n' address (start_connection n.interface) (ground (arith, e, same))

handle-running :
    (done : List Bool) (n n' : Net) → handle done n ≡ some n' → n'.server.running ≡ n.server.running
unfolding handle
handle-running [] n n' e = ground (arith, e)
handle-running (error ∷ rest) n n' e = attempt_on-running error _ n' e

abbrev pub IsStop : Event → Type 0
IsStop stops = Unit {0}
IsStop _ = ⊥

-- Only `stop` ends it.
pub step-running :
    (e : Event) (n n' : Net)
    → ¬ IsStop e
    → step e n ≡ some n'
    → n'.server.running ≡ n.server.running
unfolding step
step-running begins n n' other h = ground (arith, h)
step-running stops n n' other h = absurd (other tt)
step-running refuses n n' other h = ground (arith, h)
step-running (arrives peer) n n' other h = ground (arith, h)
step-running handles n n' other h = handle-running n.interface.done n n' h
step-running (sends takes msg) n n' other h =
    ground (arith, h, send-running (write takes) msg n.server)
