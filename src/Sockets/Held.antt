-- ===== src/Sockets/Held.antt =====
-- The callbacks of the TCP sockets of src/lib/asio_message_manager.cc reach events of
-- src/lib/dispatcher.cc that hold them.
use mathlib.Core.List.{append-nil}
use queryperfpp.Base.{
  ℕ, ◌≡◌, refl, Bool, true, false, Option, some, List, [], ◌∷◌, get_elem?, Text, ok, arith,
}
use queryperfpp.Dispatcher.Types.{Source, QueryEvent, Dispatcher}
use queryperfpp.Dispatcher.Loop.{Delivery, Split, find_if, owns_socket}
use queryperfpp.Dispatcher.Session.{run}
use queryperfpp.Dispatcher.Invariant.Session.{IsFresh}
use queryperfpp.Dispatcher.Calls.{asked, held, phase_by}
use queryperfpp.Asio.Tcp.{
  TcpSocket, TcpStep, client_send, client_delete, connected, written, length_read, data_read,
  new_tcp, perform, perform_all, send_query_over, cancel,
}
use queryperfpp.Asio.Tcp.Lifetime.{Allowed, IsSafe, Reachable, fresh, Reachable-IsSafe}
use queryperfpp.Asio.Tcp.Released.{perform-Silent, Reachable-GivenUp, AllAllowed}
use queryperfpp.Asio.Tcp.Client.{client_part, CompletionsAllowed}
use queryperfpp.Sockets.{scripts}
use queryperfpp.Asio.Tcp.Course.{
  perform_all-Reachable, given_up-released, still_closed, nothing_pending,
}
use queryperfpp.Sockets.Lives.{Stands, ended, is_fresh, is_asked}
use queryperfpp.Sockets.Session.{run-Stands, run-sockets}

-- A socket that is not open makes no callback.
closed-events :
    (x : TcpStep) (s : TcpSocket)
    → IsSafe s
    → s.is_open ≡ false
    → Allowed x s
    → (perform x s).1.events ≡ s.events
unfolding perform send_query_over cancel
closed-events (client_send bytes) s v h a = refl
closed-events client_delete s v h a = ground arith
closed-events (connected ec) s v h a = absurd (nothing_pending s _ v h a)
closed-events (written ec shut) s v h a = absurd (nothing_pending s _ v h a)
closed-events (length_read ec bytes) s v h a = absurd (nothing_pending s _ v h a.0)
closed-events (data_read ec bytes) s v h a = absurd (nothing_pending s _ v h a.1)

-- Nor does one that is given up.
released-events :
    (x : TcpStep) (s : TcpSocket)
    → Reachable s
    → s.released ≡ true
    → Allowed x s
    → (perform x s).1.events ≡ s.events
released-events x s r h a =
    (perform-Silent x s (Reachable-IsSafe s r) (Reachable-GivenUp s r) h a).1

module _ {C : Type 0} where
  found_first :
      (p : QueryEvent C → Bool) (e : QueryEvent C) (es : List (QueryEvent C)) (b : Bool)
      → p e ≡ b
      → (b ≡ false → (s : Split (QueryEvent C)) × (find_if p es ≡ some s))
      → (s : Split (QueryEvent C)) × (find_if p (e ∷ es) ≡ some s)
  unfolding find_if
  found_first p e es true q h = (record { before = []; found = e; after = es }, rw q refl)
  found_first p e es false q h =
      let (s, f) = h refl in (record s { before = e ∷ s.before }, rw (q, f) refl)

  -- An event that holds a socket is found.
  held-found :
      (i : ℕ) (es : List (QueryEvent C))
      → phase_by (held i es) ≡ asked
      → (s : Split (QueryEvent C)) × (find_if (owns_socket i) es ≡ some s)
  held-found i [] h = absurd (cc)
  held-found i (e ∷ es) h =
      found_first (owns_socket i) e es (owns_socket i e) refl
        λ q. held-found i es (ground (arith, h, q))

module _ {C R : Type 0} where
  -- When a TCP socket of a session calls back, the dispatcher has an event that holds it: the socket is
  -- the newest of its event, which is in the list and has not given it up. Here the dispatcher has run
  -- and returned, after any callbacks, and all that happened to the socket so far returned.
  pub callback-held :
      (source : Source C R) (parse_qid : Text → Option ℕ) (now later : ℕ) (xs : List Delivery)
      (d e : Dispatcher C R) (i k : ℕ) (es : List TcpStep) (s : TcpSocket) (x : TcpStep)
      → IsFresh d
      → d.manager.calls ≡ []
      → run source parse_qid now xs later d ≡ (ok tt, e)
      → get_elem? (scripts i e.manager.calls) k ≡ some (client_part es)
      → CompletionsAllowed es new_tcp
      → perform_all es new_tcp ≡ (ok tt, s)
      → Allowed x s
      → ((perform x s).1.events ≡ s.events → ⊥)
      → (k ≡ 0) × (f : Split (QueryEvent C)) × (find_if (owns_socket i) e.outstanding ≡ some f)
  unfolding new_tcp
  callback-held source parse_qid now later xs d e i k es s x fr quiet returned at c p a calls_back =
      go (run-Stands source parse_qid now later xs d e i k (client_part es) fr quiet returned at)
    where
      allowed : AllAllowed es new_tcp
      allowed =
          (run-sockets source parse_qid now later xs d e i k (client_part es) es [] fr quiet
            returned at (append-nil (client_part es)) c).0

      reached : Reachable s
      reached = perform_all-Reachable es new_tcp s fresh allowed p

      go :
          Stands (phase_by (held i e.outstanding)) k (client_part es)
          → (k ≡ 0) × (f : Split (QueryEvent C)) × (find_if (owns_socket i) e.outstanding ≡ some f)
      go (ended life over) =
          absurd
            (calls_back (released-events x s reached (given_up-released es new_tcp s over p) a))
      go (is_fresh n) = absurd (
          calls_back (
            closed-events x s (Reachable-IsSafe s reached)
              (still_closed es new_tcp s n fresh refl allowed p) a))
      go (is_asked bytes n q z) = let (f, found) = held-found i e.outstanding q in (z, f, found)
