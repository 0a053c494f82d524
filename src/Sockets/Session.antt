-- ===== src/Sockets/Session.antt =====
-- What happens to the TCP sockets that a session of src/lib/dispatcher.cc creates.
use queryperfpp.Base.{Gives, ℕ, ◌≡◌, sym, subst, Option, some, List, [], ◌++◌, get_elem?, Text, ok}
use queryperfpp.Dispatcher.Types.{Source, Dispatcher}
use queryperfpp.Dispatcher.Loop.{Delivery}
use queryperfpp.Dispatcher.Session.{run}
use queryperfpp.Dispatcher.Invariant.Session.{IsFresh}
use queryperfpp.Dispatcher.Calls.{Phase, held, phase_by}
use queryperfpp.Dispatcher.Calls.Events.{Conforming}
use queryperfpp.Dispatcher.Calls.Session.{run-Conforms}
use queryperfpp.Asio.Tcp.{TcpStep, new_tcp, perform_all}
use queryperfpp.Asio.Tcp.Lifetime.{Leaves}
use queryperfpp.Asio.Tcp.Released.{AllAllowed}
use queryperfpp.Asio.Tcp.Client.{IsLife, client_part, CompletionsAllowed, client-Leaves}
use queryperfpp.Sockets.{scripts}
use queryperfpp.Sockets.Lives.{LivesIf, scripts-Lives, Stands, Lives-Stands, Stands-IsLife}

module _ {C R : Type 0} where
  -- How the sockets of an event stand behind a session that returned.
  pub run-Stands :
      (source : Source C R) (parse_qid : Text → Option ℕ) (now later : ℕ) (xs : List Delivery)
      (d e : Dispatcher C R) (i k : ℕ) (script : List TcpStep)
      → IsFresh d
      → d.manager.calls ≡ []
      → run source parse_qid now xs later d ≡ (ok tt, e)
      → get_elem? (scripts i e.manager.calls) k ≡ some script
      → Stands (phase_by (held i e.outstanding)) k script
  run-Stands source parse_qid now later xs d e i k script fresh quiet returned at =
      let conforms =
        subst (Gives Conforming) returned
          (run-Conforms source parse_qid now later xs d fresh quiet) in
      let lives =
        subst (λ (o : Option Phase). LivesIf o (scripts i e.manager.calls)) (conforms.sockets i)
          (scripts-Lives i e.manager.calls) in
      Lives-Stands (phase_by (held i e.outstanding)) (scripts i e.manager.calls) k script lives at

  -- Every TCP socket that a session creates at the ASIO manager is safe all its life. Whatever asio
  -- completes between the dispatcher's calls about it, all of them up to any point: no object is
  -- touched that is deleted or that the dispatcher has given up, at most one operation is pending and
  -- at most one callback made, or a length came with other than two bytes and the event loop is left.
  pub run-sockets :
      (source : Source C R) (parse_qid : Text → Option ℕ) (now later : ℕ) (xs : List Delivery)
      (d e : Dispatcher C R) (i k : ℕ) (script es rest : List TcpStep)
      → IsFresh d
      → d.manager.calls ≡ []
      → run source parse_qid now xs later d ≡ (ok tt, e)
      → get_elem? (scripts i e.manager.calls) k ≡ some script
      → client_part es ++ rest ≡ script
      → CompletionsAllowed es new_tcp
      → AllAllowed es new_tcp × Leaves (perform_all es new_tcp)
  run-sockets source parse_qid now later xs d e i k script es rest fresh quiet returned at split c =
      let stands =
        run-Stands source parse_qid now later xs d e i k script fresh quiet returned at in
      client-Leaves es rest (subst IsLife (sym split) (Stands-IsLife stands)) c
