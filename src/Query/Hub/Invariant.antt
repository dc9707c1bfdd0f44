-- ===== src/Query/Hub/Invariant.antt =====
-- What holds of the hub in every state that its loop reaches.
use nex_pulse.Base.{
  ◌+◌, ◌≡◌, refl, sym, ap, ◌∙◌, inl, inr, Bool, true, false, not, ◌&&◌, ◌||◌, List, [], ◌∷◌, ◌==◌,
  length, if◌then◌else◌, arith, Bool-cases,
}
use nex_pulse.Base.Slices.{pos, succ, pred}
use nex_pulse.Text.{Text}
use nex_pulse.Query.Hub.{
  Conn, Effect, write, close, Hub, new_hub, has, put, register, drop_client, unregister, send,
  send_all, broadcast, Unique, Runs, starts, joins, leaves, sends,
}
use nex_pulse.Query.Hub.Connections.{has-put, put-Unique, has-delete, delete-Unique, length-delete}

unfoldable pub is_closed : Conn → List Effect → Bool
is_closed c [] = false
is_closed c (write d m b ∷ es) = is_closed c es
is_closed c (close d ∷ es) = (c == d) || is_closed c es

-- Nothing is written to a connection, and it is not closed, once it is closed.
unfoldable pub IsOrderly : List Effect → Type 0
IsOrderly [] = Unit
IsOrderly (write c m b ∷ es) = (is_closed c es ≡ false) × IsOrderly es
IsOrderly (close c ∷ es) = (is_closed c es ≡ false) × IsOrderly es

-- No connection is a client twice, and every client was registered; the gauge is the number of
-- clients; what was registered and is not a client is closed, and nothing else is; and no effect comes
-- after a close.
pub record IsSound (seen : List Conn) (h : Hub) : Type 0 where
  pub unique : Unique h.clients
  pub counted : h.active ≡ pos (length h.clients)
  pub known : (c : Conn) → has c h.clients ≡ true → has c seen ≡ true
  pub closed : (c : Conn) → is_closed c h.effects ≡ (has c seen && not (has c h.clients))
  pub orderly : IsOrderly h.effects

new_hub-IsSound : IsSound [] new_hub
unfolding new_hub is_closed IsOrderly Unique
new_hub-IsSound = record {
  unique = tt;
  counted = refl;
  known = λ c h. h;
  closed = λ c. refl;
  orderly = tt;
}

register-IsSound :
    (seen : List Conn) (h : Hub) (c : Conn)
    → has c seen ≡ false
    → IsSound seen h
    → IsSound (c ∷ seen) (register c h)
unfolding register
register-IsSound seen h c new s = record {
  unique = put-Unique c h.clients s.unique;
  counted =
      (let k = s.known c in
        let n : length h.clients + 1 ≡ length (put c h.clients) = ground arith in
        ap succ s.counted ∙ ap pos n);
  known = λ d m. (let k = s.known d in let p = has-put d c h.clients in ground arith);
  closed = λ d.
      (let k = s.known d in let x = s.closed d in let p = has-put d c h.clients in ground arith);
  orderly = s.orderly;
}

-- A client is dropped.
drop_client-IsSound :
    (seen : List Conn) (h : Hub) (c : Conn)
    → has c h.clients ≡ true
    → IsSound seen h
    → IsSound seen (drop_client c h)
unfolding drop_client is_closed IsOrderly
drop_client-IsSound seen h c there s = record {
  unique = delete-Unique c h.clients s.unique;
  counted = ap pred (s.counted ∙ ap pos (sym (length-delete c h.clients there)));
  known = λ d m. (let k = s.known d in let p = has-delete d c h.clients s.unique in ground arith);
  closed = λ d.
      (let k = s.known d in
        let x = s.closed d in let p = has-delete d c h.clients s.unique in ground arith);
  orderly = (let k = s.known c in let x = s.closed c in (ground arith, s.orderly));
}

unregister-IsSound :
    (seen : List Conn) (h : Hub) (c : Conn) → IsSound seen h → IsSound seen (unregister c h)
unfolding unregister
unregister-IsSound seen h c s = elim (Bool-cases (has c h.clients)) [
  | inl there ↦ rw there (drop_client-IsSound seen h c there s)
  | inr gone ↦ rw gone s
]

-- One write that is tried to a client.
logged-IsSound :
    (seen : List Conn) (h : Hub) (c : Conn) (message : Text) (b : Bool)
    → has c h.clients ≡ true
    → IsSound seen h
    → IsSound seen (record h { effects = write c message b ∷ h.effects })
unfolding is_closed IsOrderly
logged-IsSound seen h c message b there s = record {
  unique = s.unique;
  counted = s.counted;
  known = s.known;
  closed = s.closed;
  orderly = let x = s.closed c in (ground arith, s.orderly);
}

if-IsSound :
    (seen : List Conn) (b : Bool) {h k : Hub}
    → IsSound seen h
    → IsSound seen k
    → IsSound seen (if b then h else k)
if-IsSound seen true s t = s
if-IsSound seen false s t = t

send-IsSound :
    (seen : List Conn) (h : Hub) (ok : Conn → Bool) (message : Text) (c : Conn)
    → has c h.clients ≡ true
    → IsSound seen h
    → IsSound seen (send ok message c h)
unfolding send
send-IsSound seen h ok message c there s =
    let tried = logged-IsSound seen h c message (ok c) there s in
    if-IsSound seen (ok c) tried (drop_client-IsSound seen _ c there tried)

pub has-send :
    (h : Hub) (ok : Conn → Bool) (message : Text) (c d : Conn)
    → Unique h.clients
    → has d (send ok message c h).clients ≡ (has d h.clients && (ok c || not (d == c)))
unfolding send drop_client
has-send h ok message c d u = let p = has-delete d c h.clients u in ground arith

send_all-IsSound :
    (seen : List Conn) (ok : Conn → Bool) (message : Text) (order : List Conn) (h : Hub)
    → Unique order
    → ((c : Conn) → has c order ≡ true → has c h.clients ≡ true)
    → IsSound seen h
    → IsSound seen (send_all ok message order h)
unfolding send_all Unique
send_all-IsSound seen ok message [] h u all s = s
send_all-IsSound seen ok message (c ∷ order) h u all s =
    send_all-IsSound seen ok message order (send ok message c h) u.1
      (λ d m. (let a = all d in let p = has-send h ok message c d s.unique in ground arith))
      (send-IsSound seen h ok message c (all c (ground arith)) s)

broadcast-IsSound :
    (seen : List Conn) (ok : Conn → Bool) (message : Text) (order : List Conn) (h : Hub)
    → Unique order
    → ((c : Conn) → has c order ≡ has c h.clients)
    → IsSound seen h
    → IsSound seen (broadcast ok message order h)
unfolding broadcast
broadcast-IsSound seen ok message order h u all s =
    let t = send_all-IsSound seen ok message order h u (λ c m. sym (all c) ∙ m) s in
    record {
      unique = t.unique;
      counted = t.counted;
      known = t.known;
      closed = t.closed;
      orderly = t.orderly;
    }

-- In every state that the loop of Run reaches, no connection is a client twice and the gauge is the
-- number of clients. A connection is closed exactly if it was registered and is a client no more, and
-- after its close it is neither closed again nor written to.
pub Runs-IsSound : {seen : List Conn} {h : Hub} → Runs seen h → IsSound seen h
Runs-IsSound starts = new_hub-IsSound
Runs-IsSound (joins c new r) = register-IsSound _ _ c new (Runs-IsSound r)
Runs-IsSound (leaves c r) = unregister-IsSound _ _ c (Runs-IsSound r)
Runs-IsSound (sends ok message order u all r) =
    broadcast-IsSound _ ok message order _ u all (Runs-IsSound r)
