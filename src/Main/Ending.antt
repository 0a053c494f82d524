-- ===== src/Main/Ending.antt =====
-- The end of `queryperf++ -Q text -L` of src/bin/queryperfpp/queryperfpp.cc.
use queryperfpp.Base.{
  ◌∙◌, [], false, ℕ, ◌+◌, ◌<◌, ◌≡◌, refl, sym, ap, subst, Option, some, List, ◌∷◌, ◌++◌, Text,
  codes, length, length-append, arith, Result, ok, err,
}
use queryperfpp.Stream.{open_stream}
use queryperfpp.Repository.Dns.{Dns}
use queryperfpp.Repository.State.{Repository, load}
use queryperfpp.Repository.Requests.{lines, blanks, requests}
use queryperfpp.Context.{Message, clear_render, QueryContext}
use queryperfpp.Dispatcher.Types.{Dispatcher}
use queryperfpp.Dispatcher.Query.{u64_mod}
use queryperfpp.Dispatcher.Loop.{Delivery, session_timeout}
use queryperfpp.Dispatcher.Session.{start_session, run_loop, run}
use queryperfpp.Dispatcher.Settings.{default_window}
use queryperfpp.Dispatcher.Drain.{AllConcern}
use queryperfpp.Dispatcher.Drain.Whole.{Ends, run-Ends}
use queryperfpp.Dispatcher.Invariant.Session.{IsFresh}
use queryperfpp.Traffic.{context_source}
use queryperfpp.Traffic.Requests.{start_session-preloaded}
use queryperfpp.Traffic.Returning.{Returns}
use queryperfpp.Main.Prepare.{Env}
use queryperfpp.Main.Statistics.{total_result}
use queryperfpp.Main.Program.{Thread, main, Exit, finished, exit_status}
use queryperfpp.Main.Preloading.{preload_args, repository, configured_as, the_worker}
use queryperfpp.Main.Wire.{session, behind_thread, before_load, main-sends}

Returns-ok :
    {S : Type 0} (P : Unit {0} → S → Type 0) (x : Result (Unit {0}) × S)
    → Returns P x
    → x ≡ (ok tt, x.1)
Returns-ok P (ok u, s) p = refl
Returns-ok P (err e, s) p = elim p [ ]

-- Behind a session that ends.
reported :
    (x : Result (Unit {0}) × Dispatcher QueryContext Repository) (report : Exit)
    → Ends x
    → behind_thread x.0 report ≡ report
reported (ok _, d) report v = refl
reported (err e, d) report v = elim v [ ]

module _ (env : Env) (dns : Dns) (text : Text) (port limit qclass : ℕ)
    (is_port : env.cast_u16 (codes "53") ≡ some port)
    (is_limit : env.cast_size (codes "30") ≡ some limit)
    (is_class : dns.rrclass (codes "IN") ≡ some qclass) (fuel : ℕ) (to_wire : Message → Text)
    (parse_qid : Text → Option ℕ) (threads : ℕ → Thread)
    (starts : (threads 0).create_fails ≡ false) where
  -- The session of the thread, when it gets to its event loop.
  abbrev pub opened : Dispatcher QueryContext Repository
  opened =
      (start_session (context_source dns fuel to_wire) (threads 0).now
        (the_worker env dns text port limit qclass is_port is_limit is_class fuel to_wire parse_qid
          threads starts).dispatcher).1

  -- The dispatcher of the thread, with any repository.
  fresh :
      (r : Repository)
      → IsFresh
          (record (before_load env dns text port limit qclass is_port is_limit is_class fuel to_wire
            parse_qid threads starts) { repository = r })
  unfolding configured_as queryperfpp.Dispatcher.Settings.new
  fresh r = record {
    unsent = refl;
    uncompleted = refl;
    first_id = refl;
    empty = refl;
    sending = refl;
    running = refl;
    window_open = omega arith;
    no_socket = refl;
  }

  starts_session :
      (forgets : (before after : Message)
        → to_wire (before ++ clear_render ∷ after) ≡ to_wire (clear_render ∷ after))
      → 0 < length (requests dns qclass text)
      → blanks (lines text) < 1000
      → (threads 0).outcomes ≡ []
      → start_session
          (context_source dns fuel to_wire)
          (threads 0).now
          (the_worker env dns text port limit qclass is_port is_limit is_class fuel to_wire
            parse_qid threads starts).dispatcher
        ≡ (ok tt, opened)
  unfolding queryperfpp.Dispatcher.Settings.new queryperfpp.Repository.State.new open_stream
      repository configured_as queryperfpp.Main.Program.worker
  starts_session forgets some_request few reliable =
      Returns-ok _ _
        (start_session-preloaded dns fuel to_wire forgets text
          (before_load env dns text port limit qclass is_port is_limit is_class fuel to_wire
            parse_qid threads starts)
          (fresh (repository env dns text port limit qclass is_port is_limit is_class)) refl refl
          refl some_request (threads 0).now reliable (omega arith) few).1

  -- For every text with a request and fewer than 1000 empty lines and comments, if the casts of the
  -- default port and limit and the class IN are taken, the thread is created, the callbacks and the
  -- default window are below 2^64, and clearing a message makes its bytes those of a new one:
  -- `queryperf++ -Q text -L` comes to its end, if no call of the message manager fails, some callbacks
  -- return, then the session timer expires, and behind it come as many callbacks as queries are then
  -- outstanding, each for one of them and with a header wherever it has bytes. The session returns,
  -- with no query left and the manager stopped, and the program ends with status 0 and the report of
  -- the session.
  pub main-finishes :
      (forgets : (before after : Message)
        → to_wire (before ++ clear_render ∷ after) ≡ to_wire (clear_render ∷ after))
      (before after : List Delivery) (e : Dispatcher QueryContext Repository)
      → 0 < length (requests dns qclass text)
      → default_window + length (threads 0).deliveries < u64_mod
      → blanks (lines text) < 1000
      → (threads 0).outcomes ≡ []
      → (threads 0).deliveries ≡ before ++ session_timeout ∷ after
      → run_loop (context_source dns fuel to_wire) parse_qid before opened ≡ (ok tt, e)
      → length after ≡ length e.outstanding
      → AllConcern
          (context_source dns fuel to_wire)
          parse_qid
          after
          (record e { keep_sending = false })
      → Ends (
          session env dns text port limit qclass is_port is_limit is_class fuel to_wire parse_qid
            threads starts)
        × (main env dns fuel to_wire parse_qid threads (preload_args text) ≡ (
            let last =
              session env dns text port limit qclass is_port is_limit is_class fuel to_wire
                parse_qid threads starts in
            finished (last.1 ∷ []) (total_result (last.1 ∷ []))))
        × (exit_status (main env dns fuel to_wire parse_qid threads (preload_args text)) ≡ some 0)
  unfolding queryperfpp.Dispatcher.Settings.new queryperfpp.Repository.State.new open_stream
      repository configured_as queryperfpp.Main.Program.worker
  main-finishes forgets before after e some_request small few reliable delivered returns size all =
      let last =
        session env dns text port limit qclass is_port is_limit is_class fuel to_wire parse_qid
          threads starts in
      let worker =
        the_worker env dns text port limit qclass is_port is_limit is_class fuel to_wire parse_qid
          threads starts in
      let report = finished (last.1 ∷ []) (total_result (last.1 ∷ [])) in
      let room : default_window + length before < u64_mod = omega (
        arith,
        small,
        ap (λ (xs : List Delivery). length xs) delivered,
        length-append before (session_timeout ∷ after),
      ) in
      let ends : Ends last =
        subst
          (λ (xs : List Delivery). Ends (
            run (context_source dns fuel to_wire) parse_qid (threads 0).now xs (threads 0).later
              worker.dispatcher))
          (sym delivered)
          (run-Ends (context_source dns fuel to_wire) parse_qid (threads 0).now (threads 0).later
            before after worker.dispatcher opened e
            (fresh
              (load dns (repository env dns text port limit qclass is_port is_limit is_class)).1)
            room (starts_session forgets some_request few reliable) returns size all) in
      let finishes : main env dns fuel to_wire parse_qid threads (preload_args text) ≡ report =
        (main-sends env dns text port limit qclass is_port is_limit is_class fuel to_wire parse_qid
          threads starts forgets some_request small few).0
        ∙ reported last report ends in
      (ends, finishes, ap exit_status finishes)
