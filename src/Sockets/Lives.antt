-- ===== src/Sockets/Lives.antt =====
-- The sockets of one event of src/lib/dispatcher.cc, if the calls about them are right.
use queryperfpp.Base.{
  ℕ, zero, suc, ◌≡◌, refl, ap, subst, Bool, true, false, Option, none, some, List, [], ◌∷◌, ◌++◌,
  ◌==◌, if◌then◌else◌, get_elem?, Text,
}
use queryperfpp.Dispatcher.Types.{
  Call, create_udp, create_tcp, send_udp, send_tcp, delete_tcp, start_query_timer,
  start_session_timer, stop,
}
use queryperfpp.Dispatcher.Calls.{
  Phase, unheld, created, asked, on_create, on_send, on_delete, replay,
}
use queryperfpp.Asio.Tcp.{TcpStep, client_send, client_delete}
use queryperfpp.Asio.Tcp.Client.{gives_up, IsLife, untouched, sent, sent_deleted, unsent_deleted}
use queryperfpp.Sockets.{then_step, scripts}

abbrev AllEnded : List (List TcpStep) → Type 0
AllEnded [] = Unit
AllEnded (s ∷ ss) = (IsLife s × (gives_up s ≡ true)) × AllEnded ss

-- The sockets of an event in a phase: all but the newest are given up.
abbrev pub Lives : Phase → List (List TcpStep) → Type 0
Lives unheld ss = AllEnded ss
Lives created [] = ⊥
Lives created (s ∷ ss) = (s ≡ []) × AllEnded ss
Lives asked [] = ⊥
Lives asked (s ∷ ss) = (bytes : Text) × (s ≡ client_send bytes ∷ []) × AllEnded ss

abbrev pub LivesIf : Option Phase → List (List TcpStep) → Type 0
LivesIf none ss = Unit
LivesIf (some p) ss = Lives p ss

create-Lives :
    (o : Option Phase) (ss : List (List TcpStep)) → LivesIf o ss → LivesIf (on_create o) ([] ∷ ss)
create-Lives none ss h = tt
create-Lives (some unheld) ss h = (refl, h)
create-Lives (some created) ss h = tt
create-Lives (some asked) ss h = tt

send-Lives :
    (bytes : Text) (o : Option Phase) (ss : List (List TcpStep))
    → LivesIf o ss
    → LivesIf (on_send o) (then_step (client_send bytes) ss)
send-Lives bytes none ss h = tt
send-Lives bytes (some unheld) ss h = tt
send-Lives bytes (some created) [] h = elim h [ ]
send-Lives bytes (some created) (s ∷ ss) (e, h) =
    (bytes, ap (λ (r : List TcpStep). r ++ client_send bytes ∷ []) e, h)
send-Lives bytes (some asked) ss h = tt

delete-Lives :
    (o : Option Phase) (ss : List (List TcpStep))
    → LivesIf o ss
    → LivesIf (on_delete o) (then_step client_delete ss)
delete-Lives none ss h = tt
delete-Lives (some unheld) ss h = tt
delete-Lives (some created) [] h = elim h [ ]
delete-Lives (some created) (s ∷ ss) (e, h) = ((rw e unsent_deleted, rw e refl), h)
delete-Lives (some asked) [] h = elim h [ ]
delete-Lives (some asked) (s ∷ ss) (bytes, e, h) = ((rw e (sent_deleted bytes), rw e refl), h)

-- A call about the event, or about another.
if_mine :
    (b : Bool) (o o' : Option Phase) (ss ss' : List (List TcpStep))
    → LivesIf o ss
    → LivesIf o' ss'
    → LivesIf (if b then o' else o) (if b then ss' else ss)
if_mine true o o' ss ss' h h' = h'
if_mine false o o' ss ss' h h' = h

-- Calls that are right for an event make lives of its sockets.
pub scripts-Lives : (i : ℕ) (cs : List Call) → LivesIf (replay i cs) (scripts i cs)
scripts-Lives i [] = tt
scripts-Lives i (create_tcp ident address port ∷ cs) =
    if_mine (ident == i) _ _ _ _ (scripts-Lives i cs) (create-Lives _ _ (scripts-Lives i cs))
scripts-Lives i (send_tcp ident bytes ∷ cs) =
    if_mine (ident == i) _ _ _ _ (scripts-Lives i cs) (send-Lives bytes _ _ (scripts-Lives i cs))
scripts-Lives i (delete_tcp ident ∷ cs) =
    if_mine (ident == i) _ _ _ _ (scripts-Lives i cs) (delete-Lives _ _ (scripts-Lives i cs))
scripts-Lives i (create_udp address port ∷ cs) = scripts-Lives i cs
scripts-Lives i (send_udp bytes ∷ cs) = scripts-Lives i cs
scripts-Lives i (start_query_timer ident duration ∷ cs) = scripts-Lives i cs
scripts-Lives i (start_session_timer duration ∷ cs) = scripts-Lives i cs
scripts-Lives i (stop ∷ cs) = scripts-Lives i cs

AllEnded-at :
    (ss : List (List TcpStep)) (k : ℕ) (s : List TcpStep)
    → AllEnded ss
    → get_elem? ss k ≡ some s
    → IsLife s × (gives_up s ≡ true)
AllEnded-at [] k s h e = absurd (cc)
AllEnded-at (r ∷ ss) zero s (h, hs) e =
    let same : r ≡ s = cc in subst (λ (x : List TcpStep). IsLife x × (gives_up x ≡ true)) same h
AllEnded-at (r ∷ ss) (suc k) s (h, hs) e = AllEnded-at ss k s hs e

-- A socket that is given up, or the newest one of an event that holds it: fresh, or with its query
-- sent.
pub data Stands (p : Phase) (k : ℕ) (s : List TcpStep) : Type 0 where
  ended : IsLife s → gives_up s ≡ true → Stands p k s
  is_fresh : s ≡ [] → Stands p k s
  is_asked : (bytes : Text) → s ≡ client_send bytes ∷ [] → p ≡ asked → k ≡ 0 → Stands p k s

pub Lives-Stands :
    (p : Phase) (ss : List (List TcpStep)) (k : ℕ) (s : List TcpStep)
    → Lives p ss
    → get_elem? ss k ≡ some s
    → Stands p k s
Lives-Stands unheld ss k s h e = let (life, over) = AllEnded-at ss k s h e in ended life over
Lives-Stands created [] k s h e = elim h [ ]
Lives-Stands created (r ∷ ss) zero s (f, h) e = is_fresh (cc)
Lives-Stands created (r ∷ ss) (suc k) s (f, h) e =
    let (life, over) = AllEnded-at ss k s h e in ended life over
Lives-Stands asked [] k s h e = elim h [ ]
Lives-Stands asked (r ∷ ss) zero s (bytes, f, h) e = is_asked bytes (cc) refl refl
Lives-Stands asked (r ∷ ss) (suc k) s (bytes, f, h) e =
    let (life, over) = AllEnded-at ss k s h e in ended life over

pub Stands-IsLife : {p : Phase} {k : ℕ} {s : List TcpStep} → Stands p k s → IsLife s
Stands-IsLife (ended life over) = life
Stands-IsLife (is_fresh e) = rw e untouched
Stands-IsLife (is_asked bytes e p k) = rw e (sent bytes)
