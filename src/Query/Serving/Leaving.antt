-- ===== src/Query/Serving/Leaving.antt =====
-- Every client of the hub is yet to leave: what keeps it so.
use nex_pulse.Base.{
  ◌≡◌, refl, ap, ◌∙◌, Bool, true, false, ◌&&◌, ◌||◌, not, List, [], ◌∷◌, ◌++◌, All, ◌==◌, arith,
  Bool-cases, inl, inr,
}
use nex_pulse.Query.Hub.{Conn, Hub, has, register, unregister, Unique}
use nex_pulse.Query.Hub.Connections.{has-put, has-delete}
use nex_pulse.Query.Updates.{Next, takes, joined, left}
use nex_pulse.Query.Serving.{read_messages, serve_ws, is_ended, broadcasts}

-- Whether the client is yet to leave.
abbrev pub leaves_in : Conn → List Next → Bool
leaves_in c [] = false
leaves_in c (left d ∷ ns) = c == d || leaves_in c ns
leaves_in c (joined d ∷ ns) = leaves_in c ns
leaves_in c (takes ok order ∷ ns) = leaves_in c ns

abbrev pub will_leave : Conn → List (List Next) → Bool
will_leave c [] = false
will_leave c (t ∷ ts) = leaves_in c t || will_leave c ts

-- Whoever joins leaves later.
unfoldable pub Ends : List Next → Type 0
Ends [] = Unit
Ends (left d ∷ ns) = Ends ns
Ends (joined d ∷ ns) = (leaves_in d ns ≡ true) × Ends ns
Ends (takes ok order ∷ ns) = Ends ns

Ends-read_messages : (conn : Conn) (reads : List Bool) → Ends (read_messages conn reads)
unfolding read_messages Ends
Ends-read_messages conn [] = tt
Ends-read_messages conn (true ∷ reads) = Ends-read_messages conn reads
Ends-read_messages conn (false ∷ reads) = tt

leaves_in-read_messages :
    (conn : Conn) (reads : List Bool)
    → is_ended reads ≡ true
    → leaves_in conn (read_messages conn reads) ≡ true
unfolding read_messages is_ended
leaves_in-read_messages conn [] e = absurd (cc)
leaves_in-read_messages conn (true ∷ reads) e = leaves_in-read_messages conn reads e
leaves_in-read_messages conn (false ∷ reads) e = ground arith

pub Ends-serve_ws :
    (upgraded : Bool) (conn : Conn) (reads : List Bool)
    → is_ended reads ≡ true
    → Ends (serve_ws upgraded conn reads)
unfolding serve_ws Ends
Ends-serve_ws true conn reads e =
    (leaves_in-read_messages conn reads e, Ends-read_messages conn reads)
Ends-serve_ws false conn reads e = tt

pub Ends-broadcasts : (visits : List ((Conn → Bool) × List Conn)) → Ends (broadcasts visits)
unfolding broadcasts Ends
Ends-broadcasts [] = tt
Ends-broadcasts ((ok, order) ∷ visits) = Ends-broadcasts visits

will_leave-append :
    (c : Conn) (ss ts : List (List Next))
    → will_leave c (ss ++ ts) ≡ (will_leave c ss || will_leave c ts)
will_leave-append c [] ts = refl
will_leave-append c (s ∷ ss) ts = let rest = will_leave-append c ss ts in ground arith

pub none_leaves :
    (c : Conn) (ts : List (List Next)) → All (λ t. t ≡ []) ts → will_leave c ts ≡ false
none_leaves c [] h = refl
none_leaves c (t ∷ ts) h = rw h.0 (none_leaves c ts h.1)

Ends-step : (o : Next) (os : List Next) → Ends (o ∷ os) → Ends os
unfolding Ends
Ends-step (joined d) os h = h.1
Ends-step (left d) os h = h
Ends-step (takes ok order) os h = h

pub All-step :
    (before : List (List Next)) (o : Next) (rest : List Next) (after : List (List Next))
    → All Ends (before ++ (o ∷ rest) ∷ after)
    → Ends (o ∷ rest) × All Ends (before ++ rest ∷ after)
All-step [] o rest after h = (h.0, (Ends-step o rest h.0, h.1))
All-step (t ∷ before) o rest after h =
    let (now, later) = All-step before o rest after h.1 in (now, (h.0, later))

has-unregister :
    (c d : Conn) (h : Hub)
    → Unique h.clients
    → has c (unregister d h).clients ≡ (has c h.clients && not (c == d))
unfolding unregister
has-unregister c d h u = let kept = has-delete c d h.clients u in ground arith

-- Each client is yet to leave.
abbrev pub IsLeaving : List (List Next) → Hub → Type 0
IsLeaving ts h = (c : Conn) → has c h.clients ≡ true → will_leave c ts ≡ true

module _ (before : List (List Next)) (rest : List Next) (after : List (List Next)) (h : Hub) where
  pub IsLeaving-joined :
      (d : Conn)
      → leaves_in d rest ≡ true
      → IsLeaving (before ++ (joined d ∷ rest) ∷ after) h
      → IsLeaving (before ++ rest ∷ after) (register d h)
  unfolding register
  IsLeaving-joined d ends leaving c there =
      let old = leaving c in
      let p = has-put c d h.clients in
      let q = will_leave-append c before ((joined d ∷ rest) ∷ after) in
      let q' = will_leave-append c before (rest ∷ after) in
      elim (Bool-cases (c == d)) [
        | inl e ↦
            (let same : c ≡ d = ground arith in
              let ends' = ap (λ x. leaves_in x rest) same ∙ ends in ground arith)
        | inr e ↦ ground arith
      ]

  pub IsLeaving-left :
      (d : Conn)
      → Unique h.clients
      → IsLeaving (before ++ (left d ∷ rest) ∷ after) h
      → IsLeaving (before ++ rest ∷ after) (unregister d h)
  IsLeaving-left d u leaving c there =
      let old = leaving c in
      let p = has-unregister c d h u in
      let q = will_leave-append c before ((left d ∷ rest) ∷ after) in
      let q' = will_leave-append c before (rest ∷ after) in ground arith

  pub IsLeaving-takes :
      (ok : Conn → Bool) (order : List Conn) (next : Hub)
      → ((c : Conn) → has c next.clients ≡ true → has c h.clients ≡ true)
      → IsLeaving (before ++ (takes ok order ∷ rest) ∷ after) h
      → IsLeaving (before ++ rest ∷ after) next
  IsLeaving-takes ok order next fewer leaving c there =
      let old = leaving c (fewer c there) in
      let q = will_leave-append c before ((takes ok order ∷ rest) ∷ after) in
      let q' = will_leave-append c before (rest ∷ after) in ground arith
