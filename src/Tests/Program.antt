-- ===== src/Tests/Program.antt =====
-- The theorems about `main` of src/bin/queryperfpp/queryperfpp.cc at sample arguments.
use queryperfpp.Stream.Decimal.{decimal}
use queryperfpp.Dispatcher.Query.{u64_mod}
use queryperfpp.Main.Report.{Double, print, put_report, cout}
use queryperfpp.Main.Report.Lines.{rate_lines, sum_of}
use queryperfpp.Main.Report.Whole.{report_text}
use queryperfpp.Main.Report.Printed.{main-prints}
use queryperfpp.Base.{
  Error, Option, ◌*◌, ◌/◌, ◌-◌, ◌∙◌, ap, subst, Gives, ℕ, ◌+◌, ◌<◌, ◌≡◌, refl, true, false, none,
  some, List, [], ◌∷◌, if◌then◌else◌, is_nil, Text, codes, text_eq, length, arith,
}
use queryperfpp.Repository.Requests.{lines}
use queryperfpp.Repository.State.{Repository}
use queryperfpp.Context.{QueryContext}
use queryperfpp.Dispatcher.Types.{Dispatcher}
use queryperfpp.Dispatcher.Loop.{response, session_timeout}
use queryperfpp.Main.Statistics.{QueryStatistics, all_sent, all_completed}
use queryperfpp.Main.Program.{Thread, Exit, failed, finished, stuck, main}
use queryperfpp.Main.Wire.{session, behind_session, main-sends}
use queryperfpp.Traffic.Requests.{SentInTurn}
use queryperfpp.Tests.Repository.{sample-some_request}
use queryperfpp.Main.Reported.{IsReport, main-IsReport}
use queryperfpp.Main.Preloading.{preload_args, repository}
use queryperfpp.Tests.Samples.{sample_dns, sample_text, sample_repository}
use queryperfpp.Tests.Main.{sample_env, sample_qid}
use queryperfpp.Tests.Context.{render_from, render-forgets}

abbrev sample_threads : ℕ → Thread
sample_threads i = record {
  create_fails = false;
  outcomes = [];
  deliveries = response (1 ∷ []) ∷ session_timeout ∷ [];
  now = 5;
  later = 9;
}

abbrev sample_args : List (ℕ × Text)
sample_args = (b'Q', sample_text) ∷ []

abbrev left : Exit → List (Dispatcher QueryContext Repository)
left (failed e) = []
left (finished ds result) = ds
left (stuck e) = []

abbrev counts : Exit → QueryStatistics
counts (failed e) = record { queries_sent = 0; queries_completed = 0 }
counts (finished ds result) = result
counts (stuck e) = record { queries_sent = 0; queries_completed = 0 }

abbrev sample_exit : Exit
sample_exit = main sample_env sample_dns 9 (render_from []) sample_qid sample_threads sample_args

abbrev the_first : List (Dispatcher QueryContext Repository) → Dispatcher QueryContext Repository
the_first [] = queryperfpp.Dispatcher.Settings.new true (sample_repository sample_text)
the_first (d ∷ ds) = d

the_only : (ds : List (Dispatcher QueryContext Repository)) → length ds ≡ 1 → ds ≡ the_first ds ∷ []
the_only [] h = absurd (omega (arith, h))
the_only (d ∷ []) h = refl
the_only (d ∷ e ∷ ds) h = absurd (omega (arith, h))

sample-finished :
    (sample_exit ≡ finished (left sample_exit) (counts sample_exit))
    × (all_sent (left sample_exit) ≡ 21)
    × (length (left sample_exit) ≡ 1)
unfolding queryperfpp.Stream.line_of queryperfpp.Stream.after_line queryperfpp.Stream.has_newline
    queryperfpp.Stream.getline queryperfpp.Stream.is_space queryperfpp.Stream.skip_space
    queryperfpp.Stream.word_of queryperfpp.Stream.after_word queryperfpp.Stream.extract
    queryperfpp.Stream.clear queryperfpp.Stream.seek_start queryperfpp.Base.text_eq
    queryperfpp.Context.start queryperfpp.Traffic.context_source
    queryperfpp.Repository.State.new_file queryperfpp.Repository.State.get_next_param
    queryperfpp.Repository.State.set_query_class queryperfpp.Repository.State.set_dnssec
    queryperfpp.Repository.State.set_edns queryperfpp.Repository.State.set_protocol
    queryperfpp.Repository.Line.parse_line queryperfpp.Repository.Reader.strip_comment
    queryperfpp.Repository.Reader.check_stream queryperfpp.Repository.Reader.line_or
    queryperfpp.Repository.Reader.leave_or queryperfpp.Repository.Reader.next_line
    queryperfpp.Repository.Reader.request_or queryperfpp.Repository.Reader.parse_read
    queryperfpp.Repository.Reader.read_loop queryperfpp.Repository.Reader.read_next_request
    queryperfpp.Dispatcher.Query.dispatch_query queryperfpp.Dispatcher.Loop.find_if
    queryperfpp.Dispatcher.Loop.put_back queryperfpp.Dispatcher.Loop.count_completed
    queryperfpp.Dispatcher.Loop.restart_found queryperfpp.Dispatcher.Loop.restart_query
    queryperfpp.Dispatcher.Loop.parsed queryperfpp.Dispatcher.Loop.response_callback
    queryperfpp.Dispatcher.Loop.session_timer_callback queryperfpp.Dispatcher.Loop.deliver
    queryperfpp.Dispatcher.Session.unless queryperfpp.Dispatcher.Session.run_loop
    queryperfpp.Dispatcher.Session.make_pool queryperfpp.Dispatcher.Session.send_all
    queryperfpp.Dispatcher.Session.open_session queryperfpp.Dispatcher.Session.first_queries
    queryperfpp.Dispatcher.Session.start_session queryperfpp.Dispatcher.Session.run
    queryperfpp.Dispatcher.Settings.new queryperfpp.Dispatcher.Settings.set_default_query_class
    queryperfpp.Dispatcher.Settings.set_dispatcher_dnssec
    queryperfpp.Dispatcher.Settings.set_dispatcher_edns
    queryperfpp.Dispatcher.Settings.set_dispatcher_protocol
    queryperfpp.Dispatcher.Settings.set_server_address
    queryperfpp.Dispatcher.Settings.set_server_port
    queryperfpp.Dispatcher.Settings.set_test_duration queryperfpp.Main.Options.default_options
    queryperfpp.Main.Options.take_options queryperfpp.Main.Options.validate
    queryperfpp.Main.Prepare.prepare queryperfpp.Main.Program.main queryperfpp.Main.Workers.work
sample-finished = (refl, refl, refl)

main-IsReport_example :
    IsReport sample_env sample_dns 9
      (render_from [])
      sample_qid
      sample_threads
      sample_args
      (left sample_exit)
      (counts sample_exit)
main-IsReport_example =
    main-IsReport sample_env sample_dns 9 (render_from []) sample_qid sample_threads sample_args
      (left sample_exit) (counts sample_exit) (λ i. omega arith) (omega (arith, sample-finished.1))
      sample-finished.0

abbrev elapsed : Option ℕ → Option ℕ → ℕ
elapsed (some started) (some ended) = ended - started
elapsed _ _ = 0

sample-only : left sample_exit ≡ the_first (left sample_exit) ∷ []
sample-only = the_only (left sample_exit) sample-finished.2

-- Whole numbers in place of doubles.
abbrev sample_double : Double ℕ
sample_double = record {
  of_size = λ n. n;
  add = λ a b. a + b;
  mul = λ a b. a * b;
  div = λ a b. a / b;
  microseconds = λ started ended. elapsed started ended;
  show_double = λ _ _ n. decimal n;
  show_time = λ n. decimal n;
}

main-prints_example :
    let d = the_first (left sample_exit) in
    (print sample_double (put_report sample_double (d ∷ []) 100 3000100) cout).0
    ≡ report_text sample_double
        (rate_lines sample_double 0 (d ∷ []))
        (length (d ∷ []))
        (sum_of sample_double 0 (d ∷ []))
        (all_sent (d ∷ []))
        (all_completed (d ∷ []))
        (all_sent (d ∷ []) - all_completed (d ∷ []))
        100
        3000100
main-prints_example =
    main-prints sample_double sample_env sample_dns 9 (render_from []) sample_qid sample_threads
      sample_args (the_first (left sample_exit)) [] (counts sample_exit) 100 3000100
      (λ i. omega arith)
      (subst (λ (ds : List (Dispatcher QueryContext Repository)). all_sent ds < u64_mod) sample-only
        (omega (arith, sample-finished.1)))
      (sample-finished.0
        ∙ ap (λ (ds : List (Dispatcher QueryContext Repository)). finished ds (counts sample_exit))
            sample-only)

pub sample-class : sample_dns.rrclass (codes "IN") ≡ some 1
unfolding text_eq
sample-class = refl

main-sends_example :
    let last =
      session sample_env sample_dns sample_text 2 2 1 refl refl sample-class 9
        (render_from [])
        sample_qid
        sample_threads
        refl in
    (main sample_env sample_dns 9
        (render_from [])
        sample_qid
        sample_threads
        (preload_args sample_text)
      ≡ behind_session sample_env sample_dns sample_text 2 2 1 refl refl sample-class 9
          (render_from [])
          sample_qid
          sample_threads
          refl)
    × Gives
        (SentInTurn sample_dns 9
          (render_from [])
          (render-forgets [])
          (repository sample_env sample_dns sample_text 2 2 1 refl refl sample-class)
          sample_text)
        last
unfolding lines
main-sends_example =
    main-sends sample_env sample_dns sample_text 2 2 1 refl refl sample-class 9 (render_from [])
      sample_qid sample_threads refl (render-forgets []) sample-some_request (omega arith)
      (omega arith)
