-- ===== src/Query/Serving.antt =====
-- ServeWS of services/query/ws/hub.go: what each connection sends to the hub, and the hub after all
-- connections have ended.
pub mod Leaving
pub mod Empties
use nex_pulse.Base.{Bool, true, false, List, [], ◌∷◌, if◌then◌else◌, not, ◌||◌}
use nex_pulse.Query.Hub.{Conn}
use nex_pulse.Query.Updates.{Next, takes, joined, left}

-- The loop of the goroutine that reads from the connection, by whether each read succeeds: it ends at
-- the first error, after which the deferred call runs. A connection without an error stays.
unfoldable pub read_messages : Conn → List Bool → List Next
read_messages conn [] = []
read_messages conn (read ∷ reads) =
    let rest = read_messages conn reads in if read then rest else left conn ∷ []

-- The handler of /ws; `upgraded` says whether the upgrade succeeds.
unfoldable pub serve_ws : Bool → Conn → List Bool → List Next
unfolding read_messages
serve_ws upgraded conn reads = if upgraded then joined conn ∷ read_messages conn reads else []

-- A connection, with whether its upgrade succeeded and its reads.
pub record Connection : Type 0 where
  pub upgraded : Bool
  pub conn : Conn
  pub reads : List Bool

abbrev pub served : Connection → List Next
served c = serve_ws c.upgraded c.conn c.reads

-- Whether a read fails.
unfoldable pub is_ended : List Bool → Bool
is_ended [] = false
is_ended (read ∷ reads) = not read || is_ended reads

-- The broadcasts of the goroutine of the subscription, each with the writes that succeed and the
-- order of the clients.
unfoldable pub broadcasts : List ((Conn → Bool) × List Conn) → List Next
broadcasts [] = []
broadcasts ((ok, order) ∷ visits) = takes ok order ∷ broadcasts visits

-- The connections that joined.
unfoldable pub met : List Next → List Conn → List Conn
met [] seen = seen
met (joined d ∷ ns) seen = met ns (d ∷ seen)
met (left d ∷ ns) seen = met ns seen
met (takes ok order ∷ ns) seen = met ns seen
