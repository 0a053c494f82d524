-- ===== src/Dispatcher/Calls/Session.antt =====
-- The calls of a whole session of src/lib/dispatcher.cc.
use mathlib.Core.List.{append-nil}
use queryperfpp.Base.{
  Gives, bind-Gives, ℕ, zero, suc, ◌≤◌, ◌≡◌, refl, sym, ap, subst, ◌∙◌, Bool, true, false, some,
  List, [], ◌∷◌, ◌++◌, Text, Option, arith, Error, assertion, socket_failure, timer_failure, Result,
  ok, err, if_both, throw_if, modify, ◌>>◌, ltb,
}
use queryperfpp.Dispatcher.Types.{
  Method, Source, Call, create_udp, start_session_timer, QueryEvent, Dispatcher, Focus,
}
use queryperfpp.Dispatcher.Query.{dispatch_query, manage, next_outcome, later_outcomes}
use queryperfpp.Dispatcher.Loop.{Delivery, deliver, set_outstanding}
use queryperfpp.Dispatcher.Session.{
  run, unless, run_loop, open_session, first_queries, make_pool, send_all, start_session,
}
use queryperfpp.Dispatcher.Invariant.Session.{IsFresh}
use queryperfpp.Dispatcher.Calls.{
  replay, on_call, count, held, one_if, count-append, held-append, phase_by, Conforms,
}
use queryperfpp.Dispatcher.Calls.Sending.{Follows, dispatch_query-Follows}
use queryperfpp.Dispatcher.Calls.Events.{changed-Conforms, Conforming, same-Conforms}
use queryperfpp.Dispatcher.Calls.Callbacks.{deliver-Conforms}

module _ {C R : Type 0} (source : Source C R) where
  -- The numbers of a pool are those from its first on.
  make_pool-count :
      (ident n i : ℕ) → count i (make_pool source ident n) ≤ one_if (ltb ident (suc i))
  unfolding make_pool
  make_pool-count ident zero i = omega arith
  make_pool-count ident (suc n) i = ground (arith, make_pool-count (suc ident) n i)

  make_pool-held : (ident n i : ℕ) → held i (make_pool source ident n) ≡ 0
  unfolding make_pool
  make_pool-held ident zero i = refl
  make_pool-held ident (suc n) i = ground (arith, make_pool-held (suc ident) n i)

  send_all-Conforms :
      (sent events : List (QueryEvent C)) (d : Dispatcher C R)
      → Conforms (set_outstanding (sent ++ events) d)
      → Gives Conforming (send_all source sent events d)
  unfolding send_all
  send_all-Conforms sent [] d conforms =
      subst (λ (es : List (QueryEvent C)). Conforms (set_outstanding es d)) (append-nil sent)
        conforms
  send_all-Conforms sent (e ∷ events) d conforms =
      go (dispatch_query source first) (dispatch_query-Follows source first)
        λ g. send_all-Conforms (sent ++ g.event ∷ []) events g.disp
    where
      first : Focus C R
      first = record { event = e; disp = d }

      moved :
          (g : Focus C R)
          → Follows first tt g
          → Conforms (set_outstanding ((sent ++ g.event ∷ []) ++ events) g.disp)
      moved g f =
          changed-Conforms (set_outstanding (sent ++ e ∷ events) d)
            (set_outstanding ((sent ++ g.event ∷ []) ++ events) g.disp)
            (record { before = sent; found = e; after = events }) g.event conforms refl f.ident
            (λ i. omega (
              arith,
              count-append i (sent ++ g.event ∷ []) events,
              count-append i sent (g.event ∷ []),
              count-append i sent events,
            ))
            (λ i. omega (
              arith,
              held-append i (sent ++ g.event ∷ []) events,
              held-append i sent (g.event ∷ []),
              held-append i sent events,
            ))
            f.others f.own

      go :
          (x : Result (Unit {0}) × Focus C R)
          → Gives (Follows first) x
          → ((g : Focus C R)
              → Conforms (set_outstanding ((sent ++ g.event ∷ []) ++ events) g.disp)
              → Gives Conforming (send_all source (sent ++ g.event ∷ []) events g.disp))
          → Gives (Conforming {C = C} {R = R}) (elim x.0 [
            | err y ↦ (err y, set_outstanding (sent ++ x.1.event ∷ events) x.1.disp)
            | ok _ ↦ send_all source (sent ++ x.1.event ∷ []) events x.1.disp
          ])
      go (ok u, g) f rest = rest g (moved g f)
      go (err y, g) f rest = tt

  -- Before the first queries: no event is there.
  abbrev Opening : Unit {0} → Dispatcher C R → Type 0
  Opening _ d = Conforms d × (d.outstanding ≡ [])

  manage-Opening :
      (c : Call) (e : Error) (d : Dispatcher C R)
      → ((i : ℕ) → on_call i c (replay i d.manager.calls) ≡ replay i d.manager.calls)
      → Opening tt d
      → Gives Opening (manage c e d)
  unfolding manage
  manage-Opening c e d silent (conforms, empty) =
      let m = record (d.manager) { outcomes = later_outcomes d.manager.outcomes } in
      if_both (Gives Opening) (next_outcome d.manager.outcomes)
        {x = (err e, record d { manager = m })}
        {y = (ok tt, record d { manager = record m { calls = c ∷ m.calls } })} (λ _. tt)
        (λ _. (same-Conforms d _ refl silent conforms, empty))

  open_session-Opening : (d : Dispatcher C R) → Opening tt d → Gives Opening (open_session d)
  unfolding open_session
  open_session-Opening d p =
      bind-Gives Opening Opening (manage (create_udp d.server_address d.server_port) socket_failure)
        (λ _.
          modify (λ (e : Dispatcher C R). record e { udp_socket = true; session_timer = true })
          >> manage (start_session_timer d.test_duration) timer_failure)
        d (manage-Opening _ _ d (λ _. refl) p)
        λ _ e (conforms, empty).
          manage-Opening (start_session_timer d.test_duration) timer_failure
            (record e { udp_socket = true; session_timer = true }) (λ _. refl)
            (same-Conforms e _ refl (λ _. refl) conforms, empty)

  first_queries-Conforms :
      (now : ℕ) (d : Dispatcher C R) → Opening tt d → Gives Conforming (first_queries source now d)
  unfolding first_queries
  first_queries-Conforms now d (conforms, empty) =
      let pool = make_pool source 0 d.window in
      let started : Dispatcher C R = record d {
        outstanding = d.outstanding ++ pool;
        start_time = some now;
      } in
      let listed : d.outstanding ++ pool ≡ pool =
        ap (λ (es : List (QueryEvent C)). es ++ pool) empty in
      send_all-Conforms [] (d.outstanding ++ pool) started (record {
        distinct = λ i. rw listed (ground (arith, make_pool-count 0 d.window i));
        sockets = λ i.
            conforms.sockets i
            ∙ ap (λ (n : ℕ). some (phase_by n))
                (ap (held i) empty ∙ sym (ap (held i) listed ∙ make_pool-held 0 d.window i));
      })

  -- A dispatcher that has not run and has not called its manager.
  start_session-Conforms :
      (now : ℕ) (d : Dispatcher C R)
      → IsFresh d
      → d.manager.calls ≡ []
      → Gives Conforming (start_session source now d)
  unfolding start_session
  start_session-Conforms now d fresh quiet =
      subst
        (λ (b : Bool).
          Gives Conforming ((throw_if b assertion >> (open_session >> first_queries source now)) d))
        (sym fresh.no_socket)
        (bind-Gives Opening Conforming open_session (λ _. first_queries source now) d
          (open_session-Opening d (
            record {
              distinct = λ i. rw fresh.empty (omega arith);
              sockets = λ i. rw (quiet, fresh.empty) refl;
            },
            fresh.empty,
          ))
          λ _ e p. first_queries-Conforms now e p)

  unless-Conforms :
      (b : Bool) (m : Method C R) (d : Dispatcher C R)
      → Conforms d
      → Gives Conforming (m d)
      → Gives Conforming (unless b m d)
  unfolding unless
  unless-Conforms true m d conforms h = conforms
  unless-Conforms false m d conforms h = h

  run_loop-Conforms :
      (parse_qid : Text → Option ℕ) (xs : List Delivery) (d : Dispatcher C R)
      → Conforms d
      → Gives Conforming (run_loop source parse_qid xs d)
  unfolding run_loop
  run_loop-Conforms parse_qid [] d conforms = conforms
  run_loop-Conforms parse_qid (x ∷ xs) d conforms = unless-Conforms d.manager.stopped _ d conforms (
      bind-Gives Conforming Conforming (deliver source parse_qid x)
        (λ _. run_loop source parse_qid xs) d (deliver-Conforms source parse_qid x d conforms)
        λ _ e p. run_loop-Conforms parse_qid xs e p)

  -- A dispatcher that has not run and has not called its manager, with any source, any pattern of
  -- failing calls and any callbacks: if `run` returns, its calls used the TCP sockets of the manager
  -- rightly. Every socket is created when its event holds none, sends at most one query, and is not
  -- used behind its deletion; an event of the list holds a socket just if it says so, with its query
  -- sent, and no other event holds one.
  pub run-Conforms :
      (parse_qid : Text → Option ℕ) (now later : ℕ) (xs : List Delivery) (d : Dispatcher C R)
      → IsFresh d
      → d.manager.calls ≡ []
      → Gives Conforming (run source parse_qid now xs later d)
  unfolding run
  run-Conforms parse_qid now later xs d fresh quiet =
      let finish = modify (λ (e : Dispatcher C R). record e { end_time = some later }) in
      bind-Gives Conforming Conforming (start_session source now)
        (λ _. run_loop source parse_qid xs >> finish) d (start_session-Conforms now d fresh quiet)
        λ _ e p.
          bind-Gives Conforming Conforming (run_loop source parse_qid xs) (λ _. finish) e
            (run_loop-Conforms parse_qid xs e p) λ _ f q. same-Conforms f _ refl (λ _. refl) q
