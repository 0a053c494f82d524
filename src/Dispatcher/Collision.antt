-- ===== src/Dispatcher/Collision.antt =====
-- A response over UDP that has the id of a query over TCP: `responseCallback`, `restartQuery` and
-- `QueryEvent::setTCPSocket` of src/lib/dispatcher.cc.
use queryperfpp.Base.{
  ℕ, ◌≡◌, true, false, Option, some, List, [], ◌∷◌, ◌++◌, arith, Text, ◌==◌, assertion, Result, ok,
  err, Error,
}
use queryperfpp.Context.{QuerySpec}
use queryperfpp.Repository.State.{ipproto_udp}
use queryperfpp.Dispatcher.Types.{Source, QueryEvent, Dispatcher, Focus}
use queryperfpp.Dispatcher.Query.{
  manage, on_disp, start_context, start_event, set_tcp_socket, send_over_tcp, send_spec, send_query,
  dispatch_query,
}
use queryperfpp.Dispatcher.Loop.{
  Split, match_response, response, deliver, response_callback, restart_query, restart_found,
  count_completed, put_back, parsed,
}
use queryperfpp.Dispatcher.Loop.Find.{Fail, find_if_first}

module _ {C R : Type 0} (source : Source C R) where
  -- The next query that the source gives an event.
  abbrev pub next_query : QueryEvent C → Dispatcher C R → Result QuerySpec
  next_query e d = (source.start d.qid (e.ctx, d.repository)).0

  dispatch_query-socket :
      (spec : QuerySpec) (f : Focus C R)
      → f.event.tcp_sock ≡ true
      → f.disp.manager.outcomes ≡ []
      → next_query f.event f.disp ≡ ok spec
      → spec.proto == ipproto_udp ≡ false
      → (dispatch_query source f).0 ≡ err assertion
  unfolding dispatch_query start_event send_query send_spec send_over_tcp set_tcp_socket manage
      on_disp start_context
  dispatch_query-socket spec f sock fine next tcp = ground arith

  put_back-err :
      (s : Split (QueryEvent C)) (r : Result (Unit {0}) × Focus C R) (x : Error)
      → r.0 ≡ err x
      → (put_back s r).0 ≡ err x
  unfolding put_back
  put_back-err s (ok u, f) x e = cc
  put_back-err s (err y, f) x e = e

  -- While queries are being sent, a response over UDP with the id of a query that is outstanding over
  -- TCP ends the session with a failed assertion, when the manager does not fail and the next query
  -- of the source goes over TCP too: the event is restarted while it still holds its socket.
  pub response-collides :
      (parse_qid : Text → Option ℕ) (bytes : Text) (d : Dispatcher C R) (xs : List (QueryEvent C))
      (y : QueryEvent C) (ys : List (QueryEvent C)) (spec : QuerySpec)
      → d.outstanding ≡ xs ++ y ∷ ys
      → Fail (match_response y.qid) xs
      → parse_qid bytes ≡ some y.qid
      → y.tcp_sock ≡ true
      → d.keep_sending ≡ true
      → d.manager.outcomes ≡ []
      → next_query y d ≡ ok spec
      → spec.proto == ipproto_udp ≡ false
      → (deliver source parse_qid (response bytes) d).0 ≡ err assertion
  unfolding deliver response_callback parsed restart_query restart_found count_completed
  response-collides parse_qid bytes d xs y ys spec split first id sock on fine next tcp =
      rw (id, split, find_if_first (match_response y.qid) xs y ys first (ground arith))
        (rw on (put_back-err _ _ assertion (dispatch_query-socket spec _ sock fine next tcp)))
