-- ===== src/Main/Report/Printed.antt =====
-- What `main` of src/bin/queryperfpp/queryperfpp.cc writes behind a test.
use queryperfpp.Base.{ℕ, ◌+◌, ◌-◌, ◌<◌, ◌≡◌, ap, ◌∙◌, sym, List, ◌∷◌, Option, Text, length, arith}
use queryperfpp.Repository.Dns.{Dns}
use queryperfpp.Repository.State.{Repository}
use queryperfpp.Context.{Message, QueryContext}
use queryperfpp.Dispatcher.Types.{Dispatcher}
use queryperfpp.Dispatcher.Query.{u64_mod}
use queryperfpp.Dispatcher.Settings.{default_window}
use queryperfpp.Main.Prepare.{Env}
use queryperfpp.Main.Statistics.{QueryStatistics, lost_count, all_sent, all_completed}
use queryperfpp.Main.Program.{Thread, finished, main}
use queryperfpp.Main.Reported.{main-IsReport}
use queryperfpp.Main.Report.{Format, Double, cout, print, put_report}
use queryperfpp.Main.Report.Lines.{rate_lines, sum_of}
use queryperfpp.Main.Report.Whole.{report_text, put_report-lines}

module _ {W : Type 0} (dbl : Double W) (env : Env) (dns : Dns) (fuel : ℕ) (to_wire : Message → Text)
    (parse_qid : Text → Option ℕ) (threads : ℕ → Thread) where
  -- If `main` ends with status 0 and had at least one thread, for threads with fewer than 2^64 queries
  -- of the default window and callbacks each, and if the queries sent are together fewer than 2^64: its
  -- report has a numbered line for each thread with the queries that it completed per second, one with
  -- the sum of these rates if there are several threads, the sums of the queries sent and of those
  -- completed, the percentages of those completed and of the others or twice "N/A" if none was sent, the
  -- times, the seconds between them, and all queries completed per second. Rates and seconds have 6
  -- digits behind the point, percentages 2, in six places.
  pub main-prints :
      (args : List (ℕ × Text)) (d : Dispatcher QueryContext Repository)
      (ds : List (Dispatcher QueryContext Repository)) (result : QueryStatistics)
      (start_time end_time : ℕ)
      → ((i : ℕ) → default_window + length (threads i).deliveries < u64_mod)
      → all_sent (d ∷ ds) < u64_mod
      → main env dns fuel to_wire parse_qid threads args ≡ finished (d ∷ ds) result
      → (print dbl (put_report dbl (d ∷ ds) start_time end_time) cout).0
        ≡ report_text dbl
            (rate_lines dbl 0 (d ∷ ds))
            (length (d ∷ ds))
            (sum_of dbl (dbl.of_size 0) (d ∷ ds))
            (all_sent (d ∷ ds))
            (all_completed (d ∷ ds))
            (all_sent (d ∷ ds) - all_completed (d ∷ ds))
            start_time
            end_time
  main-prints args d ds result start_time end_time few small e =
      let report =
        main-IsReport env dns fuel to_wire parse_qid threads args (d ∷ ds) result few small e in
      let text : ℕ → ℕ → ℕ → Text = λ sent completed lost.
        report_text dbl (rate_lines dbl 0 (d ∷ ds)) (length (d ∷ ds))
          (sum_of dbl (dbl.of_size 0) (d ∷ ds)) sent completed lost start_time end_time in
      let of_result : QueryStatistics → Text =
        λ r. text r.queries_sent r.queries_completed (lost_count r) in
      let lost : lost_count result ≡ all_sent (d ∷ ds) - all_completed (d ∷ ds) =
        omega (arith, report.books, report.completed) in
      ap (λ (x : Text × Format). x.0) (put_report-lines dbl d ds start_time end_time)
      ∙ ap of_result (sym report.counted)
      ∙ ap (λ (n : ℕ). text n result.queries_completed (lost_count result)) report.sent
      ∙ ap (λ (n : ℕ). text (all_sent (d ∷ ds)) n (lost_count result)) report.completed
      ∙ ap (text (all_sent (d ∷ ds)) (all_completed (d ∷ ds))) lost
