-- ===== src/Dispatcher/Protocol/Session.antt =====
-- The calls of a whole session of src/lib/dispatcher.cc, in their order.
use queryperfpp.Base.{
  Gives, bind-Gives, Gives-map, ℕ, ◌≡◌, refl, sym, subst, ◌∙◌, Bool, true, false, List, [], ◌∷◌,
  ◌++◌, Text, Option, some, Error, assertion, socket_failure, timer_failure, Result, ok, err,
  if_both, throw_if, modify, ◌>>◌,
}
use queryperfpp.Dispatcher.Types.{
  Method, Source, Call, create_udp, start_session_timer, QueryEvent, Dispatcher, Focus,
}
use queryperfpp.Dispatcher.Query.{dispatch_query, manage, next_outcome, later_outcomes}
use queryperfpp.Dispatcher.Loop.{Delivery, deliver, set_outstanding}
use queryperfpp.Dispatcher.Loop.Kept.{Behind}
use queryperfpp.Dispatcher.Session.{
  run, unless, run_loop, open_session, first_queries, make_pool, send_all, start_session,
}
use queryperfpp.Dispatcher.Invariant.Session.{IsFresh}
use queryperfpp.Dispatcher.Protocol.{IsTrace, opened, Traced}
use queryperfpp.Dispatcher.Protocol.Sending.{dispatch_query-Running}
use queryperfpp.Dispatcher.Protocol.Callbacks.{
  Same, Trace, Run, retraced, silent-Running, deliver-Traced,
}

module _ {C R : Type 0} (source : Source C R) (address : Text) (port duration timeout : ℕ) where
  abbrev AllRun : Unit {0} → Dispatcher C R → Type 0
  AllRun = Behind (Run address port duration timeout)

  abbrev AllTraced : Unit {0} → Dispatcher C R → Type 0
  AllTraced = Behind (Trace address port duration timeout)

  send_all-Running :
      (sent events : List (QueryEvent C)) (d : Dispatcher C R)
      → Run address port duration timeout d
      → Gives AllRun (send_all source sent events d)
  unfolding send_all
  send_all-Running sent [] d r =
      silent-Running address port duration timeout d (set_outstanding sent d)
        (refl, refl, refl, refl, refl) refl r
  send_all-Running sent (e ∷ events) d r =
      go (dispatch_query source (record { event = e; disp = d }))
        (dispatch_query-Running source (record { event = e; disp = d }) r)
        λ g. send_all-Running (sent ++ g.event ∷ []) events g.disp
    where
      go :
          (x : Result (Unit {0}) × Focus C R)
          → Gives (λ _ g. Run address port duration timeout g.disp) x
          → ((g : Focus C R)
              → Run address port duration timeout g.disp
              → Gives AllRun (send_all source (sent ++ g.event ∷ []) events g.disp))
          → Gives AllRun (elim x.0 [
            | err y ↦ (err y, set_outstanding (sent ++ x.1.event ∷ events) x.1.disp)
            | ok _ ↦ send_all source (sent ++ x.1.event ∷ []) events x.1.disp
          ])
      go (ok u, g) q rest = rest g q
      go (err y, g) q rest = tt

  -- A call that returned.
  abbrev Called : Dispatcher C R → Call → Unit {0} → Dispatcher C R → Type 0
  Called d c _ e =
      Same address port duration timeout d e
      × (e.manager.calls ≡ c ∷ d.manager.calls)
      × (e.manager.stopped ≡ d.manager.stopped)

  manage-Called : (c : Call) (e : Error) (d : Dispatcher C R) → Gives (Called d c) (manage c e d)
  unfolding manage
  manage-Called c e d =
      let m = record (d.manager) { outcomes = later_outcomes d.manager.outcomes } in
      if_both (Gives (Called d c)) (next_outcome d.manager.outcomes)
        {x = (err e, record d { manager = m })}
        {y = (ok tt, record d { manager = record m { calls = c ∷ m.calls } })} (λ _. tt)
        (λ _. ((refl, refl, refl, refl, refl), refl, refl))

  -- Nothing was called yet.
  record Unopened (d : Dispatcher C R) : Type 0 where
    address_is : d.server_address ≡ address
    port_is : d.server_port ≡ port
    duration_is : d.test_duration ≡ duration
    timeout_is : d.query_timeout ≡ timeout
    unsent : d.queries_sent ≡ 0
    running : d.manager.stopped ≡ false
    quiet : d.manager.calls ≡ []

  open_session-Running : (d : Dispatcher C R) → Unopened d → Gives AllRun (open_session d)
  unfolding open_session
  open_session-Running d u =
      let udp = create_udp d.server_address d.server_port in
      let timer = start_session_timer d.test_duration in
      let start = manage timer timer_failure in
      bind-Gives (Called d udp) AllRun (manage udp socket_failure)
        (λ _.
          modify (λ (e : Dispatcher C R). record e { udp_socket = true; session_timer = true })
          >> start)
        d (manage-Called udp socket_failure d)
        λ _ e (same, calls, stopped).
          let e' = record e { udp_socket = true; session_timer = true } in
          Gives-map (Called e' timer) AllRun (start e') (manage-Called timer timer_failure e')
            λ _ g (same', calls', stopped').
              (let session : g.manager.calls
                    ≡ start_session_timer duration ∷ create_udp address port ∷ [] =
                  cc in
                let runs : g.manager.stopped ≡ false = stopped' ∙ stopped ∙ u.running in
                record {
                  traced = record {
                    same_address = same'.0 ∙ same.0 ∙ u.address_is;
                    same_port = same'.1 ∙ same.1 ∙ u.port_is;
                    same_duration = same'.2 ∙ same.2 ∙ u.duration_is;
                    same_timeout = same'.3 ∙ same.3 ∙ u.timeout_is;
                    queries = 0;
                    trace =
                        subst
                          (λ (b : Bool). IsTrace address port duration timeout g.manager.calls 0 b)
                          (sym runs)
                          (subst
                            (λ (cs : List Call). IsTrace address port duration timeout cs 0 false)
                            (sym session) opened);
                    counted = same'.4 ∙ same.4 ∙ u.unsent;
                  };
                  runs = runs;
                })

  unless-Traced :
      (b : Bool) (m : Method C R) (d : Dispatcher C R)
      → Trace address port duration timeout d
      → (b ≡ false → Gives AllTraced (m d))
      → Gives AllTraced (unless b m d)
  unfolding unless
  unless-Traced true m d r h = r
  unless-Traced false m d r h = h refl

  run_loop-Traced :
      (parse_qid : Text → Option ℕ) (xs : List Delivery) (d : Dispatcher C R)
      → Trace address port duration timeout d
      → Gives AllTraced (run_loop source parse_qid xs d)
  unfolding run_loop
  run_loop-Traced parse_qid [] d r = r
  run_loop-Traced parse_qid (x ∷ xs) d r = unless-Traced d.manager.stopped _ d r λ e.
      bind-Gives AllTraced AllTraced (deliver source parse_qid x)
        (λ _. run_loop source parse_qid xs) d
        (deliver-Traced address port duration timeout source parse_qid x d
          (record { traced = r; runs = e }))
        λ _ f q. run_loop-Traced parse_qid xs f q

  start_session-Running :
      (now : ℕ) (d : Dispatcher C R) → Unopened d → Gives AllRun (start_session source now d)
  unfolding start_session first_queries
  start_session-Running now d u = go d.udp_socket
    where
      go :
          (b : Bool)
          → Gives AllRun ((throw_if b assertion >> (open_session >> first_queries source now)) d)
      go true = tt
      go false =
          bind-Gives AllRun AllRun open_session (λ _. first_queries source now) d
            (open_session-Running d u)
            λ _ e r.
              let started : Dispatcher C R = record e {
                outstanding = e.outstanding ++ make_pool source 0 e.window;
                start_time = some now;
              } in
              send_all-Running [] started.outstanding started (
                silent-Running address port duration timeout e started
                  (refl, refl, refl, refl, refl) refl r)

  run-go :
      (parse_qid : Text → Option ℕ) (now later : ℕ) (xs : List Delivery) (d : Dispatcher C R)
      → Unopened d
      → Gives AllTraced (run source parse_qid now xs later d)
  unfolding run
  run-go parse_qid now later xs d u =
      let finish = modify (λ (e : Dispatcher C R). record e { end_time = some later }) in
      bind-Gives AllRun AllTraced (start_session source now)
        (λ _. run_loop source parse_qid xs >> finish) d (start_session-Running now d u)
        λ _ e r.
          bind-Gives AllTraced AllTraced (run_loop source parse_qid xs) (λ _. finish) e
            (run_loop-Traced parse_qid xs e r.traced)
            λ _ f q.
              retraced address port duration timeout f _ q (refl, refl, refl, refl, refl) q.trace

module _ {C R : Type 0} where
  -- A dispatcher that has not run and has not called its manager, with any source, any pattern of
  -- failing calls and any callbacks: if `run` returns, it has called the manager in this order. First
  -- come the UDP socket to its server and the timer of its test duration. Each query starts the timer
  -- of its event with the query timeout, and directly behind goes over the UDP socket, or over a TCP
  -- socket to the server that is created for it. Between the queries TCP sockets are deleted. `stop` is
  -- the last call, if it is made. The queries so sent are counted, in 64 bits.
  pub run-Traced :
      (source : Source C R) (parse_qid : Text → Option ℕ) (now later : ℕ) (xs : List Delivery)
      (d : Dispatcher C R)
      → IsFresh d
      → d.manager.calls ≡ []
      → Gives
          (λ _ e. Traced d.server_address d.server_port d.test_duration d.query_timeout e)
          (run source parse_qid now xs later d)
  run-Traced source parse_qid now later xs d fresh quiet =
      run-go source d.server_address d.server_port d.test_duration d.query_timeout parse_qid now
        later xs d
        (record {
          address_is = refl;
          port_is = refl;
          duration_is = refl;
          timeout_is = refl;
          unsent = fresh.unsent;
          running = fresh.running;
          quiet = quiet;
        })
