-- ===== src/Tests/Sockets.antt =====
-- The theorems about the calls of a session and its TCP sockets, at a sample session.
use queryperfpp.Timers.{starts_of, sum_below, fired_by, run-timers}
use queryperfpp.Asio.Timer.{
  TimerStep, client_start, time_up, handler, new_timer, timer_perform, timer_start, handle_expire,
}
use queryperfpp.Asio.Timer.Expiry.{AllTimerAllowed}
use queryperfpp.Asio.Timer.Spent.{timer_starts}
use queryperfpp.Dispatcher.Query.{u64_mod}
use queryperfpp.Dispatcher.Types.{
  Call, create_udp, create_tcp, send_tcp, delete_tcp, start_query_timer, start_session_timer,
}
use queryperfpp.Traffic.{sent_bytes}
use queryperfpp.Base.{
  length, zero, suc, ◌%◌, ◌≤◌, ◌∙◌, sym, ap, codes, get_elem?, Gives, ok, refl, ◌≡◌, ◌∷◌, [], some,
  arith, ℕ, List,
}
use queryperfpp.Asio.Types.{success, failed}
use queryperfpp.Asio.Tcp.{
  TcpStep, TcpSocket, client_send, client_delete, connected, perform, perform_all, new_tcp,
  send_query_over, handle_connect, cancel_check, send_callback,
}
use queryperfpp.Asio.Tcp.Lifetime.{Leaves}
use queryperfpp.Asio.Tcp.Released.{AllAllowed}
use queryperfpp.Dispatcher.Types.{Dispatcher, QueryEvent}
use queryperfpp.Dispatcher.Loop.{Delivery, tcp_response, Split, find_if, owns_socket}
use queryperfpp.Dispatcher.Session.{run}
use queryperfpp.Dispatcher.Invariant.Session.{IsFresh}
use queryperfpp.Dispatcher.Calls.Events.{Conforming}
use queryperfpp.Dispatcher.Calls.Session.{run-Conforms}
use queryperfpp.Dispatcher.Protocol.{Traced}
use queryperfpp.Dispatcher.Protocol.Session.{run-Traced}
use queryperfpp.Sockets.{scripts}
use queryperfpp.Sockets.Session.{run-sockets}
use queryperfpp.Sockets.Held.{callback-held}
use queryperfpp.Tests.Samples.{sample_source, sample_dispatcher}
use queryperfpp.Tests.Main.{sample_qid}

abbrev first : Dispatcher (Unit {0}) (Unit {0})
first = sample_dispatcher []

sample-IsFresh : IsFresh first
sample-IsFresh = record {
  unsent = refl;
  uncompleted = refl;
  first_id = refl;
  empty = refl;
  sending = refl;
  running = refl;
  window_open = omega arith;
  no_socket = refl;
}

abbrev answer : List Delivery
answer = tcp_response 0 (0 ∷ []) ∷ []

-- Two queries over TCP, an answer to the first, and a third query.
abbrev ran : Dispatcher (Unit {0}) (Unit {0})
ran = (run (sample_source 6) sample_qid 5 answer 9 first).1

abbrev over_socket : ℕ → ℕ → List Call → List Call
over_socket ident byte calls =
    send_tcp ident (byte ∷ [])
    ∷ create_tcp ident (codes "::1") 53
    ∷ start_query_timer ident 5
    ∷ calls

abbrev ran_calls : List Call
ran_calls = over_socket 0 2 (
    delete_tcp 0
    ∷ over_socket 1 1 (over_socket 0 0 (start_session_timer 30 ∷ create_udp (codes "::1") 53 ∷ [])))

-- It returns; the first socket of event 0 and the socket of event 1.
sample-session :
    (run (sample_source 6) sample_qid 5 answer 9 first ≡ (ok tt, ran))
    × (get_elem? (scripts 0 ran.manager.calls) 1 ≡ some (client_send (0 ∷ []) ∷ client_delete ∷ []))
    × (get_elem? (scripts 1 ran.manager.calls) 0 ≡ some (client_send (1 ∷ []) ∷ []))
    × (ran.manager.calls ≡ ran_calls)
unfolding queryperfpp.Dispatcher.Session.run queryperfpp.Dispatcher.Session.start_session
    queryperfpp.Dispatcher.Session.open_session queryperfpp.Dispatcher.Session.first_queries
    queryperfpp.Dispatcher.Session.send_all queryperfpp.Dispatcher.Session.make_pool
    queryperfpp.Dispatcher.Session.run_loop queryperfpp.Dispatcher.Session.unless
    queryperfpp.Dispatcher.Query.dispatch_query queryperfpp.Dispatcher.Loop.deliver
    queryperfpp.Dispatcher.Loop.response_callback queryperfpp.Dispatcher.Loop.parsed
    queryperfpp.Dispatcher.Loop.restart_query queryperfpp.Dispatcher.Loop.restart_found
    queryperfpp.Dispatcher.Loop.find_if queryperfpp.Dispatcher.Loop.count_completed
    queryperfpp.Dispatcher.Loop.put_back queryperfpp.Dispatcher.Loop.splice_end
    queryperfpp.Dispatcher.Loop.clear_socket_of queryperfpp.Dispatcher.Loop.drop_event
    queryperfpp.Dispatcher.Loop.on_event queryperfpp.Dispatcher.Loop.parse_tcp
    queryperfpp.Dispatcher.Loop.query_timer_callback
    queryperfpp.Dispatcher.Loop.response_tcp_callback
    queryperfpp.Dispatcher.Loop.session_timer_callback queryperfpp.Dispatcher.Query.manage
    queryperfpp.Dispatcher.Query.record_call queryperfpp.Dispatcher.Query.stop_manager
    queryperfpp.Dispatcher.Query.on_disp queryperfpp.Dispatcher.Query.start_context
    queryperfpp.Dispatcher.Query.start_event queryperfpp.Dispatcher.Query.set_tcp_socket
    queryperfpp.Dispatcher.Query.clear_tcp_socket queryperfpp.Dispatcher.Query.send_over_tcp
    queryperfpp.Dispatcher.Query.count_sent queryperfpp.Dispatcher.Query.send_spec
    queryperfpp.Dispatcher.Query.send_query queryperfpp.Dispatcher.Loop.delete_event
sample-session = (refl, refl, refl, refl)

run-Conforms_example : Gives Conforming (run (sample_source 6) sample_qid 5 answer 9 first)
run-Conforms_example =
    run-Conforms (sample_source 6) sample_qid 5 9 answer first sample-IsFresh refl

abbrev answered : List TcpStep
answered = client_send (0 ∷ []) ∷ connected success ∷ []

run-Traced_example :
    Gives
      (λ _ e.
        Traced first.server_address first.server_port first.test_duration first.query_timeout e)
      (run (sample_source 6) sample_qid 5 answer 9 first)
run-Traced_example = run-Traced (sample_source 6) sample_qid 5 9 answer first sample-IsFresh refl

run-sockets_example : AllAllowed answered new_tcp × Leaves (perform_all answered new_tcp)
unfolding new_tcp perform_all perform send_query_over
run-sockets_example =
    run-sockets (sample_source 6) sample_qid 5 9 answer first ran 0 1
      (client_send (0 ∷ []) ∷ client_delete ∷ []) answered (client_delete ∷ []) sample-IsFresh refl
      sample-session.0 sample-session.1 refl (tt, (refl, tt))

-- The second query cannot connect.
abbrev waiting : TcpSocket
waiting = (perform_all (client_send (1 ∷ []) ∷ []) new_tcp).1

callback-held_example :
    (◌≡◌ {A = ℕ} 0 0)
    × (f : Split (QueryEvent (Unit {0}))) × (find_if (owns_socket 1) ran.outstanding ≡ some f)
unfolding new_tcp perform_all perform send_query_over handle_connect cancel_check send_callback
callback-held_example =
    callback-held (sample_source 6) sample_qid 5 9 answer first ran 1 0 (client_send (1 ∷ []) ∷ [])
      waiting (connected failed) sample-IsFresh refl sample-session.0 sample-session.2 (tt, tt) refl
      refl (λ e. absurd (cc))

-- The timer of the first event fires between its queries.
abbrev timer_steps : ℕ → List TimerStep
timer_steps zero = client_start success ∷ time_up ∷ handler 0 success ∷ client_start success ∷ []
timer_steps (suc zero) = client_start success ∷ []
timer_steps (suc (suc i)) = []

timer_steps-starts : (i : ℕ) → timer_starts (timer_steps i) ≡ starts_of i ran.manager.calls
timer_steps-starts i = go i ∙ sym (ap (starts_of i) sample-session.3)
  where
    go : (i : ℕ) → timer_starts (timer_steps i) ≡ starts_of i ran_calls
    go zero = refl
    go (suc zero) = refl
    go (suc (suc i)) = ground arith

timer_steps-allowed : (i : ℕ) → AllTimerAllowed (timer_steps i) new_timer
unfolding new_timer timer_perform timer_start handle_expire
timer_steps-allowed zero = (refl, (omega arith, (refl, (refl, tt))))
timer_steps-allowed (suc zero) = (refl, tt)
timer_steps-allowed (suc (suc i)) = tt

run-timers_example :
    (sum_below (fired_by timer_steps) 2 ≤ length (sent_bytes ran.manager.calls))
    × (ran.queries_sent ≡ length (sent_bytes ran.manager.calls) % u64_mod)
run-timers_example =
    run-timers (sample_source 6) sample_qid 5 9 answer first ran timer_steps 2 sample-IsFresh refl
      sample-session.0 timer_steps-starts timer_steps-allowed
