-- ===== src/Tests/Ending.antt =====
-- The end of `queryperf++ -Q text -L` of src/bin/queryperfpp/queryperfpp.cc, for a session of 21
-- queries, one of them answered.
use queryperfpp.Base.{
  ◌&&◌, Bool, ℕ, suc, zero, ◌+◌, ◌≡◌, ◌≢◌, refl, true, false, Option, none, some, List, [], ◌∷◌,
  ◌++◌, Text, codes, length, arith, Result, ok, err,
}
use queryperfpp.Repository.Requests.{lines}
use queryperfpp.Repository.State.{Repository}
use queryperfpp.Context.{QueryContext}
use queryperfpp.Dispatcher.Types.{Source, Dispatcher}
use queryperfpp.Dispatcher.Loop.{
  Delivery, deliver, response, query_timeout, session_timeout, tcp_response, find_if, is_event,
}
use queryperfpp.Dispatcher.Session.{run_loop}
use queryperfpp.Dispatcher.Drain.{AllConcern}
use queryperfpp.Dispatcher.Drain.Whole.{Ends}
use queryperfpp.Traffic.{context_source}
use queryperfpp.Main.Statistics.{total_result}
use queryperfpp.Main.Program.{Thread, finished, exit_status, main}
use queryperfpp.Main.Preloading.{preload_args}
use queryperfpp.Main.Wire.{session}
use queryperfpp.Main.Ending.{opened, main-finishes}
use queryperfpp.Tests.Repository.{sample-some_request}
use queryperfpp.Tests.Samples.{sample_dns, sample_text}
use queryperfpp.Tests.Main.{sample_env, sample_qid}
use queryperfpp.Tests.Program.{sample-class}
use queryperfpp.Tests.Context.{render_from, render-forgets}

-- The timeouts of the first `n` events.
abbrev timeouts : ℕ → List Delivery
timeouts zero = []
timeouts (suc n) = query_timeout n ∷ timeouts n

abbrev ending_threads : ℕ → Thread
ending_threads i = record {
  create_fails = false;
  outcomes = [];
  deliveries = response (1 ∷ []) ∷ session_timeout ∷ timeouts 20;
  now = 5;
  later = 9;
}

abbrev sample_opened : Dispatcher QueryContext Repository
sample_opened =
    opened sample_env sample_dns sample_text 2 2 1 refl refl sample-class 9 (render_from [])
      sample_qid ending_threads refl

abbrev sample_answered : Dispatcher QueryContext Repository
sample_answered =
    (run_loop (context_source sample_dns 9 (render_from [])) sample_qid (response (1 ∷ []) ∷ [])
      sample_opened).1

abbrev is_found : {A : Type 0} → Option A → Bool
is_found none = false
is_found (some x) = true

is_found-some : {A : Type 0} (o : Option A) → is_found o ≡ true → o ≢ none
is_found-some none h = cc
is_found-some (some x) h = λ e. cc

module _ {C R : Type 0} (source : Source C R) (parse_qid : Text → Option ℕ) where
  -- Each of the timeouts is that of an event in the list.
  all_found : ℕ → Dispatcher C R → Bool
  all_found zero d = true
  all_found (suc n) d =
      let rest = all_found n (deliver source parse_qid (query_timeout n) d).1 in
      is_found (find_if (is_event n) d.outstanding) && rest

  all_found-AllConcern :
      (n : ℕ) (d : Dispatcher C R)
      → all_found n d ≡ true
      → AllConcern source parse_qid (timeouts n) d
  unfolding all_found
  all_found-AllConcern zero d h = tt
  all_found-AllConcern (suc n) d h =
      both (all_found-AllConcern n _) (is_found (find_if (is_event n) d.outstanding)) refl h
    where
      next : Dispatcher C R
      next = (deliver source parse_qid (query_timeout n) d).1

      both :
          (all_found n next ≡ true → AllConcern source parse_qid (timeouts n) next)
          → (b : Bool) → is_found (find_if (is_event n) d.outstanding) ≡ b
          → (b && all_found n next) ≡ true
          → (find_if (is_event n) d.outstanding ≢ none)
            × AllConcern source parse_qid (timeouts n) next
      both rest true p q = (is_found-some _ p, rest q)
      both rest false p q = cc

sample-runs :
    (run_loop
        (context_source sample_dns 9 (render_from []))
        sample_qid
        (response (1 ∷ []) ∷ [])
        sample_opened
      ≡ (ok tt, sample_answered))
    × (length sample_answered.outstanding ≡ 20)
    × (all_found
          (context_source sample_dns 9 (render_from []))
          sample_qid
          20
          (record sample_answered { keep_sending = false })
        ≡ true)
unfolding queryperfpp.Stream.line_of queryperfpp.Stream.after_line queryperfpp.Stream.has_newline
    queryperfpp.Stream.getline queryperfpp.Stream.is_space queryperfpp.Stream.skip_space
    queryperfpp.Stream.word_of queryperfpp.Stream.after_word queryperfpp.Stream.extract
    queryperfpp.Stream.clear queryperfpp.Stream.seek_start queryperfpp.Base.text_eq
    queryperfpp.Context.start queryperfpp.Traffic.context_source
    queryperfpp.Repository.State.new_file queryperfpp.Repository.State.get_next_param
    queryperfpp.Repository.State.set_query_class queryperfpp.Repository.State.set_dnssec
    queryperfpp.Repository.State.set_edns queryperfpp.Repository.State.set_protocol
    queryperfpp.Repository.Line.parse_line queryperfpp.Repository.Reader.strip_comment
    queryperfpp.Repository.Reader.check_stream queryperfpp.Repository.Reader.line_or
    queryperfpp.Repository.Reader.leave_or queryperfpp.Repository.Reader.next_line
    queryperfpp.Repository.Reader.request_or queryperfpp.Repository.Reader.parse_read
    queryperfpp.Repository.Reader.read_loop queryperfpp.Repository.Reader.read_next_request
    queryperfpp.Dispatcher.Query.dispatch_query queryperfpp.Dispatcher.Loop.find_if
    queryperfpp.Dispatcher.Loop.put_back queryperfpp.Dispatcher.Loop.count_completed
    queryperfpp.Dispatcher.Loop.restart_found queryperfpp.Dispatcher.Loop.restart_query
    queryperfpp.Dispatcher.Loop.parsed queryperfpp.Dispatcher.Loop.response_callback
    queryperfpp.Dispatcher.Loop.session_timer_callback queryperfpp.Dispatcher.Loop.deliver
    queryperfpp.Dispatcher.Session.unless queryperfpp.Dispatcher.Session.run_loop
    queryperfpp.Dispatcher.Session.make_pool queryperfpp.Dispatcher.Session.send_all
    queryperfpp.Dispatcher.Session.open_session queryperfpp.Dispatcher.Session.first_queries
    queryperfpp.Dispatcher.Session.start_session queryperfpp.Dispatcher.Session.run
    queryperfpp.Dispatcher.Settings.new queryperfpp.Dispatcher.Settings.set_default_query_class
    queryperfpp.Dispatcher.Settings.set_dispatcher_dnssec
    queryperfpp.Dispatcher.Settings.set_dispatcher_edns
    queryperfpp.Dispatcher.Settings.set_dispatcher_protocol
    queryperfpp.Dispatcher.Settings.set_server_address
    queryperfpp.Dispatcher.Settings.set_server_port
    queryperfpp.Dispatcher.Settings.set_test_duration queryperfpp.Main.Options.default_options
    queryperfpp.Main.Options.take_options queryperfpp.Main.Options.validate
    queryperfpp.Main.Prepare.prepare queryperfpp.Main.Workers.work queryperfpp.Main.Program.worker
    queryperfpp.Main.Preloading.configured_as queryperfpp.Repository.State.load
    queryperfpp.Main.Preloading.repository queryperfpp.Repository.State.load_loop
    queryperfpp.Repository.State.load_or queryperfpp.Repository.State.push_param
    queryperfpp.Repository.State.finish_load all_found queryperfpp.Dispatcher.Loop.on_event
    queryperfpp.Dispatcher.Loop.query_timer_callback queryperfpp.Dispatcher.Loop.drop_event
sample-runs = (refl, refl, refl)

main-finishes_example :
    let last =
      session sample_env sample_dns sample_text 2 2 1 refl refl sample-class 9
        (render_from [])
        sample_qid
        ending_threads
        refl in
    Ends last
    × (main sample_env sample_dns 9
          (render_from [])
          sample_qid
          ending_threads
          (preload_args sample_text)
        ≡ finished (last.1 ∷ []) (total_result (last.1 ∷ [])))
    × (exit_status (
          main sample_env sample_dns 9
            (render_from [])
            sample_qid
            ending_threads
            (preload_args sample_text))
        ≡ some 0)
unfolding lines
main-finishes_example =
    main-finishes sample_env sample_dns sample_text 2 2 1 refl refl sample-class 9 (render_from [])
      sample_qid ending_threads refl (render-forgets []) (response (1 ∷ []) ∷ []) (timeouts 20)
      sample_answered sample-some_request (omega arith) (omega arith) refl refl sample-runs.0
      (omega (arith, sample-runs.1))
      (all_found-AllConcern (context_source sample_dns 9 (render_from [])) sample_qid 20
        (record sample_answered { keep_sending = false }) sample-runs.2)
