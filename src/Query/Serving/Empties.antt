-- ===== src/Query/Serving/Empties.antt =====
-- When all connections have ended, the hub has no client.
use nex_pulse.Base.{◌≡◌, refl, ap, ◌∙◌, Bool, true, false, List, [], ◌∷◌, All, map, arith, length}
use nex_pulse.Base.Slices.{pos}
use nex_pulse.Base.Interleaving.{Interleaves, finished, steps}
use nex_pulse.Text.{Text}
use nex_pulse.Query.Hub.{Conn, Hub, new_hub, has, broadcast, Runs, starts, joins, leaves, sends}
use nex_pulse.Query.Hub.Invariant.{is_closed, Runs-IsSound}
use nex_pulse.Query.Hub.Delivery.{broadcast-inbox}
use nex_pulse.Query.Updates.{Next, takes, joined, left, forward, IsOrderly}
use nex_pulse.Query.Serving.{Connection, served, is_ended, broadcasts, met}
use nex_pulse.Query.Serving.Leaving.{
  Ends, Ends-serve_ws, Ends-broadcasts, none_leaves, All-step, IsLeaving, IsLeaving-joined,
  IsLeaving-left, IsLeaving-takes,
}

Runs-forward :
    (ns : List Next) (ms : List Text) {seen : List Conn} {h : Hub}
    → Runs seen h
    → IsOrderly ms ns seen h
    → Runs (met ns seen) (forward ms ns h)
unfolding met forward IsOrderly
Runs-forward [] ms r orderly = r
Runs-forward (joined d ∷ ns) ms r orderly = Runs-forward ns ms (joins d orderly.0 r) orderly.1
Runs-forward (left d ∷ ns) ms r orderly = Runs-forward ns ms (leaves d r) orderly
Runs-forward (takes ok order ∷ ns) [] r orderly = Runs-forward ns [] r orderly
Runs-forward (takes ok order ∷ ns) (m ∷ ms) r orderly =
    Runs-forward ns ms (sends ok m order orderly.0 orderly.1 r) orderly.2

-- A step, whatever it is, and the steps behind it.
none_stays :
    {ts : List (List Next)} {trace : List Next}
    → Interleaves ts trace
    → (ms : List Text) {seen : List Conn} {h : Hub} → Runs seen h
    → All Ends ts
    → IsLeaving ts h
    → IsOrderly ms trace seen h
    → (c : Conn) → has c (forward ms trace h).clients ≡ false
unfolding forward IsOrderly
none_stays (finished ts empty) ms {h = h} r ends leaving orderly c =
    let leaves_once = leaving c in let nobody = none_leaves c ts empty in ground arith
none_stays (steps before (joined d) rest after i) ms {h = h} r ends leaving orderly c =
    let (now, later) = All-step before (joined d) rest after ends in
    none_stays i ms (joins d orderly.0 r) later
      (IsLeaving-joined before rest after h d (unfold Ends in now.0) leaving) orderly.1 c
none_stays (steps before (left d) rest after i) ms {h = h} r ends leaving orderly c =
    let (now, later) = All-step before (left d) rest after ends in
    none_stays i ms (leaves d r) later
      (IsLeaving-left before rest after h d (Runs-IsSound r).unique leaving) orderly c
none_stays (steps before (takes ok order) rest after i) [] {h = h} r ends leaving orderly c =
    let (now, later) = All-step before (takes ok order) rest after ends in
    none_stays i [] r later
      (IsLeaving-takes before rest after h ok order h (λ d there. there) leaving) orderly c
none_stays (steps before (takes ok order) rest after i) (m ∷ ms) {h = h} r ends leaving orderly c =
    let (now, later) = All-step before (takes ok order) rest after ends in
    let fewer = λ (d : Conn) (there : has d (broadcast ok m order h).clients ≡ true).
      (let p = (broadcast-inbox r ok m order orderly.0 orderly.1 d).1 in
        let q : has d h.clients ≡ true = ground arith in q) in
    none_stays i ms (sends ok m order orderly.0 orderly.1 r) later
      (IsLeaving-takes before rest after h ok order (broadcast ok m order h) fewer leaving)
      orderly.2 c

no_client : (cs : List Conn) → ((c : Conn) → has c cs ≡ false) → cs ≡ []
no_client [] h = refl
no_client (c ∷ cs) h = let first = h c in absurd (ground arith)

Ends-served :
    (connections : List Connection)
    → All (λ (c : Connection). is_ended c.reads ≡ true) connections
    → All Ends (map served connections)
Ends-served [] ended = tt
Ends-served (c ∷ connections) ended =
    (Ends-serve_ws c.upgraded c.conn c.reads ended.0, Ends-served connections ended.1)

-- Whatever the order in which the hub takes what the handlers of /ws and the subscription send, if
-- each broadcast goes once to each client of its time and connections are new when they join: when a read of
-- every connection has failed, the hub has no client, its gauge is at 0, and the connections that
-- joined are exactly those that it has closed.
pub clients-forward :
    (connections : List Connection) (visits : List ((Conn → Bool) × List Conn)) (ms : List Text)
    {trace : List Next}
    → Interleaves (broadcasts visits ∷ map served connections) trace
    → All (λ (c : Connection). is_ended c.reads ≡ true) connections
    → IsOrderly ms trace [] new_hub
    → ((forward ms trace new_hub).clients ≡ [])
      × ((forward ms trace new_hub).active ≡ pos 0)
      × ((c : Conn) → is_closed c (forward ms trace new_hub).effects ≡ has c (met trace []))
clients-forward connections visits ms {trace} i ended orderly =
    let sound = Runs-IsSound (Runs-forward trace ms starts orderly) in
    let gone =
      none_stays i ms starts (Ends-broadcasts visits, Ends-served connections ended)
        (unfold new_hub in λ c there. absurd (ground arith)) orderly in
    let empty = no_client (forward ms trace new_hub).clients gone in
    (
      empty,
      sound.counted ∙ ap (λ cs. pos (length cs)) empty,
      λ c. (let x = sound.closed c in let g = gone c in ground arith),
    )
