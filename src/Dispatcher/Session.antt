-- ===== src/Dispatcher/Session.antt =====
-- The session of src/lib/dispatcher.cc: `Dispatcher::run` and `DispatcherImpl::run`.
use queryperfpp.Base.{
  Bool, ℕ, zero, suc, true, false, Option, some, List, [], ◌∷◌, ◌++◌, Text, assertion,
  socket_failure, timer_failure, ok, err, get, modify, throw_if, ◌>>=◌, ◌>>◌,
}
use queryperfpp.Dispatcher.Types.{
  Method, Source, create_udp, start_session_timer, QueryEvent, Dispatcher,
}
use queryperfpp.Dispatcher.Query.{manage, dispatch_query}
use queryperfpp.Dispatcher.Loop.{Delivery, deliver, set_outstanding}

module _ {C R : Type 0} where
  -- A stopped event loop delivers nothing more.
  unfoldable pub unless : Bool → Method C R → Method C R
  unless true m d = (ok tt, d)
  unless false m d = m d

  -- `msg_mgr_->run()`, by what it delivers until it is stopped or has nothing left. An exception
  -- leaves the loop.
  unfoldable pub run_loop : Source C R → (Text → Option ℕ) → List Delivery → Method C R
  run_loop source parse_qid [] d = (ok tt, d)
  run_loop source parse_qid (x ∷ xs) d =
      unless d.manager.stopped (deliver source parse_qid x >> run_loop source parse_qid xs) d

  -- The pool of `run`: `window_` events, none of them started.
  unfoldable pub make_pool : Source C R → ℕ → ℕ → List (QueryEvent C)
  make_pool source ident zero = []
  make_pool source ident (suc n) =
      record { ident = ident; ctx = source.create; qid = 0; tcp_sock = false; tcp_rcvbuf = false }
      ∷ make_pool source (suc ident) n

  -- The first queries. `sent` are the events behind the loop's iterator.
  unfoldable pub send_all : Source C R → List (QueryEvent C) → List (QueryEvent C) → Method C R
  send_all source sent [] d = (ok tt, set_outstanding sent d)
  send_all source sent (e ∷ events) d =
      let (r, f) = dispatch_query source (record { event = e; disp = d }) in
      elim r [
        | err x ↦ (err x, set_outstanding (sent ++ f.event ∷ events) f.disp)
        | ok _ ↦ send_all source (sent ++ f.event ∷ []) events f.disp
      ]

  -- `DispatcherImpl::run`: the UDP socket and the session timer, which is started.
  unfoldable pub open_session : Method C R
  unfolding manage
  open_session = do
    d ← get
    manage (create_udp d.server_address d.server_port) socket_failure
    modify (λ (e : Dispatcher C R). record e { udp_socket = true; session_timer = true })
    manage (start_session_timer d.test_duration) timer_failure

  -- Then the pool, the start time and the initial queries; `now` is the local time.
  unfoldable pub first_queries : Source C R → ℕ → Method C R
  first_queries source now = do
    modify (λ (e : Dispatcher C R). record e {
      outstanding = e.outstanding ++ make_pool source 0 e.window;
      start_time = some now;
    })
    e ← get
    send_all source [] e.outstanding

  -- All that `run` does before the event loop. The assertion is that of `Dispatcher::run`.
  unfoldable pub start_session : Source C R → ℕ → Method C R
  start_session source now = do
    d ← get
    throw_if d.udp_socket assertion
    open_session
    first_queries source now

  -- `Dispatcher::run`
  unfoldable pub run : Source C R → (Text → Option ℕ) → ℕ → List Delivery → ℕ → Method C R
  run source parse_qid now deliveries later = do
    start_session source now
    run_loop source parse_qid deliveries
    modify (λ (d : Dispatcher C R). record d { end_time = some later })
