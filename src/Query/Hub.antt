-- ===== src/Query/Hub.antt =====
-- services/query/ws/hub.go: the hub of the WebSocket connections, whose loop takes one event of a
-- channel after another.
pub mod Connections
pub mod Invariant
pub mod Delivery
use nex_pulse.Base.{ℕ, suc, zero, ◌+◌, ◌≡◌, Bool, true, false, List, [], ◌∷◌, ◌==◌, if◌then◌else◌}
use nex_pulse.Base.Slices.{ℤ, pos, negsuc, succ, pred}
use nex_pulse.Text.{Text}

-- A `*websocket.Conn`, by its identity.
abbrev pub Conn : Type 0
Conn = ℕ

-- What the hub does to a connection: WriteMessage, which succeeds or not, and Close.
pub data Effect : Type 0 where
  write : Conn → Text → Bool → Effect
  close : Conn → Effect

-- The keys of the map of clients, the two metrics, and the effects so far, the last one first.
pub record Hub : Type 0 where
  pub clients : List Conn
  pub active : ℤ
  pub broadcasted : ℕ
  pub effects : List Effect

unfoldable pub new_hub : Hub
new_hub = record { clients = []; active = pos 0; broadcasted = 0; effects = [] }

-- `_, ok := h.clients[client]`
abbrev pub has : Conn → List Conn → Bool
has c [] = false
has c (d ∷ cs) = if c == d then true else has c cs

-- `h.clients[client] = true`
abbrev pub put : Conn → List Conn → List Conn
put c cs = if has c cs then cs else c ∷ cs

abbrev pub delete : Conn → List Conn → List Conn
delete c [] = []
delete c (d ∷ cs) = let rest = delete c cs in if c == d then cs else d ∷ rest

-- The case of `<-h.register`.
unfoldable pub register : Conn → Hub → Hub
register c h = record h { clients = put c h.clients; active = succ h.active }

-- The client is closed and deleted, and the gauge goes down.
unfoldable pub drop_client : Conn → Hub → Hub
drop_client c h = record h {
  clients = delete c h.clients;
  active = pred h.active;
  effects = close c ∷ h.effects;
}

-- The case of `<-h.unregister`.
unfoldable pub unregister : Conn → Hub → Hub
unfolding drop_client
unregister c h = if has c h.clients then drop_client c h else h

-- The body of the loop over the clients; `ok` says which writes succeed.
unfoldable pub send : (Conn → Bool) → Text → Conn → Hub → Hub
unfolding drop_client
send ok message c h =
    let tried = record h { effects = write c message (ok c) ∷ h.effects } in
    if ok c then tried else drop_client c tried

unfoldable pub send_all : (Conn → Bool) → Text → List Conn → Hub → Hub
unfolding send
send_all ok message [] h = h
send_all ok message (c ∷ cs) h = send_all ok message cs (send ok message c h)

-- The case of `<-h.broadcast`, which visits the clients in the order given.
unfoldable pub broadcast : (Conn → Bool) → Text → List Conn → Hub → Hub
unfolding send_all
broadcast ok message order h =
    let sent = send_all ok message order h in record sent { broadcasted = sent.broadcasted + 1 }

-- No connection is in the list twice.
unfoldable pub Unique : List Conn → Type 0
Unique [] = Unit
Unique (c ∷ cs) = (has c cs ≡ false) × Unique cs

-- The states that the loop of Run reaches, with the connections that it took from h.register, each of
-- them once, since ServeWS sends every new connection once. The range over the map visits each client
-- once, in any order.
pub data Runs : List Conn → Hub → Type 0 where
  starts : Runs [] new_hub
  joins :
      {seen : List Conn} {h : Hub} (c : Conn)
      → has c seen ≡ false
      → Runs seen h
      → Runs (c ∷ seen) (register c h)
  leaves : {seen : List Conn} {h : Hub} (c : Conn) → Runs seen h → Runs seen (unregister c h)
  sends :
      {seen : List Conn} {h : Hub} (ok : Conn → Bool) (message : Text) (order : List Conn)
      → Unique order
      → ((c : Conn) → has c order ≡ has c h.clients)
      → Runs seen h
      → Runs seen (broadcast ok message order h)
