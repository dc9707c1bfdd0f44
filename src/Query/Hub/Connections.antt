-- ===== src/Query/Hub/Connections.antt =====
-- The map of clients as a list of its keys: what put and delete do to it.
use nex_pulse.Base.{suc, ◌≡◌, refl, true, not, ◌&&◌, ◌||◌, List, [], ◌∷◌, ◌==◌, length, arith}
use nex_pulse.Query.Hub.{Conn, has, put, delete, Unique}

pub has-put : (d c : Conn) (cs : List Conn) → has d (put c cs) ≡ (has d cs || (d == c))
has-put d c cs = ground arith

pub put-Unique : (c : Conn) (cs : List Conn) → Unique cs → Unique (put c cs)
unfolding Unique
put-Unique c cs u = ground arith

pub has-delete :
    (d c : Conn) (cs : List Conn) → Unique cs → has d (delete c cs) ≡ (has d cs && not (d == c))
unfolding Unique
has-delete d c [] u = refl
has-delete d c (e ∷ cs) u = let ih = has-delete d c cs u.1 in ground arith

pub delete-Unique : (c : Conn) (cs : List Conn) → Unique cs → Unique (delete c cs)
unfolding Unique
delete-Unique c [] u = tt
delete-Unique c (e ∷ cs) u =
    let ih = delete-Unique c cs u.1 in let gone = has-delete e c cs u.1 in ground arith

pub length-delete :
    (c : Conn) (cs : List Conn) → has c cs ≡ true → suc (length (delete c cs)) ≡ length cs
length-delete c [] h = ground arith
length-delete c (e ∷ cs) h = let ih = length-delete c cs in ground arith
