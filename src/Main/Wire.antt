-- ===== src/Main/Wire.antt =====
-- What `queryperf++ -Q text -L` of src/bin/queryperfpp/queryperfpp.cc puts on the wire.
use queryperfpp.Base.{
  ◌∙◌, if◌then◌else◌, is_fatal, err, [], Bool, true, false, Gives, ℕ, ◌+◌, ◌<◌, ◌≡◌, refl, false,
  Option, some, [], ◌∷◌, ◌++◌, Text, codes, length, arith, Result, ok,
}
use queryperfpp.Stream.{open_stream}
use queryperfpp.Repository.Dns.{Dns}
use queryperfpp.Repository.State.{Repository, load}
use queryperfpp.Repository.Requests.{lines, blanks, requests}
use queryperfpp.Context.{Message, clear_render, QueryContext}
use queryperfpp.Dispatcher.Types.{Dispatcher}
use queryperfpp.Dispatcher.Query.{u64_mod}
use queryperfpp.Dispatcher.Session.{run}
use queryperfpp.Dispatcher.Settings.{default_window}
use queryperfpp.Traffic.{context_source}
use queryperfpp.Traffic.Requests.{SentInTurn, run-preloaded}
use queryperfpp.Main.Prepare.{Env}
use queryperfpp.Main.Statistics.{total_result, run_queryperf, caught}
use queryperfpp.Main.Workers.{work, run_thread, join_all}
use queryperfpp.Main.Program.{Thread, main, Exit, finished, stuck, run_threads}
use queryperfpp.Main.Preloading.{preload_args, repository, configured_as, the_worker, main-ends}

-- How `main` ends behind a thread: with the report, unless the thread is aborted or goes on for ever.
abbrev pub behind_thread : Result (Unit {0}) → Exit → Exit
behind_thread (ok u) report = report
behind_thread (err e) report = if is_fatal e then stuck e else report

joined-behind_thread :
    (report : Exit) (x : Result (Unit {0}))
    → elim (elim (caught x) as (λ _. Result (Unit {0})) [ err e ↦ err e | ok _ ↦ ok tt ]) [
      | err e ↦ stuck e
      | ok _ ↦ report
    ]
      ≡ behind_thread x report
unfolding caught
joined-behind_thread report (ok u) = refl
joined-behind_thread report (err e) = go (is_fatal e)
  where
    go :
        (b : Bool)
        → elim (elim (if b then err e else ok tt) as (λ _. Result (Unit {0})) [
          | err x ↦ err x
          | ok _ ↦ ok tt
        ]) [ err x ↦ stuck x | ok _ ↦ report ]
          ≡ (if b then stuck e else report)
    go true = refl
    go false = refl

module _ (env : Env) (dns : Dns) (text : Text) (port limit qclass : ℕ)
    (is_port : env.cast_u16 (codes "53") ≡ some port)
    (is_limit : env.cast_size (codes "30") ≡ some limit)
    (is_class : dns.rrclass (codes "IN") ≡ some qclass) (fuel : ℕ) (to_wire : Message → Text)
    (parse_qid : Text → Option ℕ) (threads : ℕ → Thread)
    (starts : (threads 0).create_fails ≡ false) where
  -- The session in the thread.
  abbrev pub session : Result (Unit {0}) × Dispatcher QueryContext Repository
  session =
      run (context_source dns fuel to_wire) parse_qid (threads 0).now (threads 0).deliveries
        (threads 0).later
        (the_worker env dns text port limit qclass is_port is_limit is_class fuel to_wire parse_qid
          threads starts).dispatcher

  -- What `main` comes to behind the thread.
  abbrev pub behind_session : Exit
  behind_session =
      behind_thread session.0 (finished (session.1 ∷ []) (total_result (session.1 ∷ [])))

  abbrev pub before_load : Dispatcher QueryContext Repository
  before_load =
      let d =
        configured_as env dns text port limit qclass is_port is_limit is_class
          (repository env dns text port limit qclass is_port is_limit is_class) in
      record d { manager = record (d.manager) { outcomes = (threads 0).outcomes } }

  -- For every text with a request and fewer than 1000 empty lines and comments, if the casts of
  -- the default port and limit and the class IN are taken, the thread is created, the callbacks
  -- and the default window are below 2^64, and clearing a message makes its bytes those of a new
  -- one: `queryperf++ -Q text -L` runs the session in its thread. Unless this is aborted or goes on
  -- for ever, the program ends with status 0 and the report of the session; and if the session
  -- returns, it has sent as query number n the bytes of the text's request number n modulo the
  -- number of requests, with n in 16 bits as its id, in this order and no others.
  pub main-sends :
      (forgets : (before after : Message)
        → to_wire (before ++ clear_render ∷ after) ≡ to_wire (clear_render ∷ after))
      → 0 < length (requests dns qclass text)
      → default_window + length (threads 0).deliveries < u64_mod
      → blanks (lines text) < 1000
      → (main env dns fuel to_wire parse_qid threads (preload_args text) ≡ behind_session)
        × Gives
            (SentInTurn dns fuel to_wire forgets
              (repository env dns text port limit qclass is_port is_limit is_class)
              text)
            session
  unfolding run_thread join_all queryperfpp.Dispatcher.Settings.new queryperfpp.Repository.State.new
      open_stream repository configured_as work run_queryperf run_threads
      queryperfpp.Main.Program.worker
  main-sends forgets some_request small few =
      let (done, sent) =
        run-preloaded dns fuel to_wire forgets text before_load
          (record {
            unsent = refl;
            uncompleted = refl;
            first_id = refl;
            empty = refl;
            sending = refl;
            running = refl;
            window_open = omega arith;
            no_socket = refl;
          })
          refl refl refl some_request parse_qid (threads 0).now (threads 0).later
          (threads 0).deliveries small few in
      (
        main-ends env dns text port limit qclass is_port is_limit is_class fuel to_wire parse_qid
              threads starts (ok tt) done
            ∙ joined-behind_thread (finished (session.1 ∷ []) (total_result (session.1 ∷ [])))
                session.0,
        sent,
      )
