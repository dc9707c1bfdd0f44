-- ===== src/Query/Updates.antt =====
-- SubscribeToUpdates of services/query/rdb/redis.go: the goroutine that hands each message of the
-- channel to the hub, while clients come and go.
use nex_pulse.Base.{
  ℕ, ◌+◌, ◌≡◌, refl, ap, ◌∙◌, Bool, true, false, List, [], ◌∷◌, length, ◌==◌, arith, if◌then◌else◌,
}
use nex_pulse.Text.{Text, codes, same}
use nex_pulse.Query.Hub.{
  Conn, Hub, has, register, unregister, broadcast, Unique, Runs, joins, leaves, sends,
}
use nex_pulse.Query.Hub.Connections.{has-put, has-delete}
use nex_pulse.Query.Hub.Invariant.{Runs-IsSound}
use nex_pulse.Query.Hub.Delivery.{inbox, broadcast-inbox}

-- The messages that the subscription gets of what is published, each with its channel.
unfoldable pub subscribed : List (Text × Text) → List Text
unfolding same codes
subscribed [] = []
subscribed ((channel, message) ∷ published) =
    let rest = subscribed published in
    if same channel (codes "dashboard_updates") then message ∷ rest else rest

-- What the loop of the hub takes next: the next message of the channel, with the writes that succeed
-- and the order of the clients, or a client that comes or goes.
pub data Next : Type 0 where
  takes : (Conn → Bool) → List Conn → Next
  joined left : Conn → Next

-- The loop over the channel with Broadcast, and the cases of the hub, in the order in which it takes
-- them.
unfoldable pub forward : List Text → List Next → Hub → Hub
forward ms [] h = h
forward ms (joined d ∷ ns) h = forward ms ns (register d h)
forward ms (left d ∷ ns) h = forward ms ns (unregister d h)
forward [] (takes ok order ∷ ns) h = forward [] ns h
forward (m ∷ ms) (takes ok order ∷ ns) h = forward ms ns (broadcast ok m order h)

-- Each connection joins once, and a broadcast visits each client of its time once.
unfoldable pub IsOrderly : List Text → List Next → List Conn → Hub → Type 0
IsOrderly ms [] seen h = Unit
IsOrderly ms (joined d ∷ ns) seen h =
    (has d seen ≡ false) × IsOrderly ms ns (d ∷ seen) (register d h)
IsOrderly ms (left d ∷ ns) seen h = IsOrderly ms ns seen (unregister d h)
IsOrderly [] (takes ok order ∷ ns) seen h = IsOrderly [] ns seen h
IsOrderly (m ∷ ms) (takes ok order ∷ ns) seen h =
    Unique order
    × ((c : Conn) → has c order ≡ has c h.clients)
    × IsOrderly ms ns seen (broadcast ok m order h)

-- A client does not go, and all writes to it succeed.
unfoldable pub IsReached : Conn → List Next → Type 0
IsReached c [] = Unit
IsReached c (joined d ∷ ns) = IsReached c ns
IsReached c (left d ∷ ns) = ((c == d) ≡ false) × IsReached c ns
IsReached c (takes ok order ∷ ns) = (ok c ≡ true) × IsReached c ns

-- How many messages the hub can take.
unfoldable pub takings : List Next → ℕ
takings [] = 0
takings (joined d ∷ ns) = takings ns
takings (left d ∷ ns) = takings ns
takings (takes ok order ∷ ns) = takings ns + 1

-- The messages in front of what a client has, the last one first.
unfoldable pub heard : List Text → List (Text × Bool) → List (Text × Bool)
heard [] before = before
heard (m ∷ ms) before = heard ms ((m, true) ∷ before)

inbox-register : (c d : Conn) (h : Hub) → inbox c (register d h).effects ≡ inbox c h.effects
unfolding register
inbox-register c d h = refl

has-register : (c d : Conn) (h : Hub) → has c h.clients ≡ true → has c (register d h).clients ≡ true
unfolding register
has-register c d h here = has-put c d h.clients ∙ rw here refl

inbox-unregister : (c d : Conn) (h : Hub) → inbox c (unregister d h).effects ≡ inbox c h.effects
unfolding unregister inbox
inbox-unregister c d h = ground arith

has-unregister :
    (c d : Conn) (h : Hub)
    → Unique h.clients
    → (c == d) ≡ false
    → has c h.clients ≡ true
    → has c (unregister d h).clients ≡ true
unfolding unregister
has-unregister c d h u other here = let kept = has-delete c d h.clients u in ground arith

-- A client of a reachable hub that does not go and can be written to stays a client, and if the hub
-- takes all messages of the channel, it gets each of them once, in their order, whatever the other
-- clients do and whichever writes to them fail.
pub inbox-forward :
    (ns : List Next) (ms : List Text) {seen : List Conn} {h : Hub} (r : Runs seen h) (c : Conn)
    → takings ns ≡ length ms
    → IsOrderly ms ns seen h
    → IsReached c ns
    → has c h.clients ≡ true
    → (inbox c (forward ms ns h).effects ≡ heard ms (inbox c h.effects))
      × (has c (forward ms ns h).clients ≡ true)
unfolding forward IsOrderly IsReached heard takings
inbox-forward [] [] r c all orderly reached here = (refl, here)
inbox-forward [] (m ∷ ms) r c all orderly reached here = absurd (omega (arith, all))
inbox-forward (joined d ∷ ns) ms {h = h} r c all orderly reached here =
    let rest =
      inbox-forward ns ms (joins d orderly.0 r) c all orderly.1 reached (has-register c d h here) in
    (rest.0 ∙ ap (heard ms) (inbox-register c d h), rest.1)
inbox-forward (left d ∷ ns) ms {h = h} r c all orderly reached here =
    let stays = has-unregister c d h (Runs-IsSound r).unique reached.0 here in
    let rest = inbox-forward ns ms (leaves d r) c all orderly reached.1 stays in
    (rest.0 ∙ ap (heard ms) (inbox-unregister c d h), rest.1)
inbox-forward (takes ok order ∷ ns) [] r c all orderly reached here = absurd (omega (arith, all))
inbox-forward (takes ok order ∷ ns) (m ∷ ms) {h = h} r c all orderly reached here =
    let one = broadcast-inbox r ok m order orderly.0 orderly.1 c in
    let stays : has c (broadcast ok m order h).clients ≡ true = one.1 ∙ rw (here, reached.0) refl in
    let got : inbox c (broadcast ok m order h).effects ≡ (m, true) ∷ inbox c h.effects =
      one.0 ∙ rw (here, reached.0) refl in
    let rest =
      inbox-forward ns ms (sends ok m order orderly.0 orderly.1 r) c (omega (arith, all)) orderly.2
        reached.1 stays in
    (rest.0 ∙ ap (heard ms) got, rest.1)
