-- ===== src/Query/Hub/Delivery.antt =====
-- Which clients a broadcast reaches, and which stay.
use nex_pulse.Base.{◌≡◌, refl, Bool, not, ◌&&◌, ◌||◌, List, [], ◌∷◌, ◌==◌, if◌then◌else◌, arith}
use nex_pulse.Text.{Text}
use nex_pulse.Query.Hub.{
  Conn, Effect, write, close, Hub, has, drop_client, send, send_all, broadcast, Unique, Runs,
}
use nex_pulse.Query.Hub.Connections.{delete-Unique}
use nex_pulse.Query.Hub.Invariant.{Runs-IsSound, has-send}

-- The writes that were tried to one connection, each with its result, the last one first.
unfoldable pub inbox : Conn → List Effect → List (Text × Bool)
inbox c [] = []
inbox c (write d message b ∷ es) =
    let rest = inbox c es in if c == d then (message, b) ∷ rest else rest
inbox c (close d ∷ es) = inbox c es

send-inbox :
    (ok : Conn → Bool) (message : Text) (c d : Conn) (h : Hub)
    → inbox d (send ok message c h).effects
      ≡ (if d == c then (message, ok d) ∷ inbox d h.effects else inbox d h.effects)
unfolding send drop_client inbox
send-inbox ok message c d h = ground arith

send-Unique :
    (ok : Conn → Bool) (message : Text) (c : Conn) (h : Hub)
    → Unique h.clients
    → Unique (send ok message c h).clients
unfolding send drop_client
send-Unique ok message c h u = let v = delete-Unique c h.clients u in ground arith

send_all-inbox :
    (ok : Conn → Bool) (message : Text) (order : List Conn) (d : Conn) (h : Hub)
    → Unique order
    → inbox d (send_all ok message order h).effects
      ≡ (if has d order then (message, ok d) ∷ inbox d h.effects else inbox d h.effects)
unfolding send_all Unique
send_all-inbox ok message [] d h u = refl
send_all-inbox ok message (c ∷ order) d h u =
    let ih = send_all-inbox ok message order d (send ok message c h) u.1 in
    let one = send-inbox ok message c d h in ground arith

send_all-has :
    (ok : Conn → Bool) (message : Text) (order : List Conn) (d : Conn) (h : Hub)
    → Unique h.clients
    → has d (send_all ok message order h).clients ≡ (has d h.clients && (ok d || not (has d order)))
unfolding send_all
send_all-has ok message [] d h u = ground arith
send_all-has ok message (c ∷ order) d h u =
    let ih = send_all-has ok message order d (send ok message c h) (send-Unique ok message c h u) in
    let one = has-send h ok message c d u in ground arith

-- Whatever the order in which the clients are visited: in a reachable state, a broadcast tries to
-- write its message to each client exactly once, and to no other connection; and the clients after it
-- are those clients whose write succeeded.
pub broadcast-inbox :
    {seen : List Conn} {h : Hub} (r : Runs seen h) (ok : Conn → Bool) (message : Text)
    (order : List Conn)
    → Unique order
    → ((c : Conn) → has c order ≡ has c h.clients)
    → (c : Conn)
    → (inbox c (broadcast ok message order h).effects
        ≡ (if has c h.clients then (message, ok c) ∷ inbox c h.effects else inbox c h.effects))
      × (has c (broadcast ok message order h).clients ≡ (has c h.clients && ok c))
unfolding broadcast
broadcast-inbox {h = h} r ok message order u all c =
    let s = Runs-IsSound r in
    let i = send_all-inbox ok message order c h u in
    let m = send_all-has ok message order c h s.unique in
    let e = all c in (rw (← e) i, ground arith)
