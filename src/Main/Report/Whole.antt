-- ===== src/Main/Report/Whole.antt =====
-- The whole report of src/bin/queryperfpp/queryperfpp.cc as a text.
use queryperfpp.Base.{ℕ, ◌≡◌, true, false, List, ◌∷◌, ◌++◌, Text, codes, length, ap, ◌∙◌}
use queryperfpp.Dispatcher.Types.{Dispatcher}
use queryperfpp.Main.Statistics.{QueryStatistics, total_result, lost_count}
use queryperfpp.Main.Report.{
  Double, Item, str, precision, Format, cout, insert, print, put_rates, put_sum, put_counts,
  put_percentage, put_times, put_report,
}
use queryperfpp.Main.Report.Lines.{
  set_to, sum_line, count_lines, percent_text, time_lines, rate_lines, sum_of, print_both,
  put_rates-sums, put_rates-first, put_sum-line, put_counts-lines, put_percentage-line, lost_line,
  put_times-lines,
}

module _ {W : Type 0} (dbl : Double W) where
  -- The report behind the lines of the threads.
  abbrev pub report_text : Text → ℕ → W → ℕ → ℕ → ℕ → ℕ → ℕ → Text
  report_text rates num_threads total_qps sent completed lost start_time end_time =
      codes "\nStatistics:\n\n"
      ++ rates
      ++ sum_line dbl num_threads total_qps
      ++ count_lines dbl sent completed
      ++ percent_text dbl completed sent
      ++ (codes "  Percentage lost:      " ++ percent_text dbl lost sent)
      ++ time_lines dbl completed start_time end_time

  opened :
      (rates : List (Item W)) (text : Text)
      → print dbl rates (set_to false 6) ≡ (text, set_to true 6)
      → print dbl (str (codes "\nStatistics:\n\n") ∷ precision 6 ∷ rates) cout
        ≡ (codes "\nStatistics:\n\n" ++ text, set_to true 6)
  unfolding print insert
  opened rates text e = ap (λ (x : Text × Format). (codes "\nStatistics:\n\n" ++ x.0, x.1)) e

  parts :
      (rates : List (Item W)) (text : Text) (num_threads : ℕ) (total_qps : W)
      (result : QueryStatistics) (start_time end_time : ℕ)
      → print dbl (str (codes "\nStatistics:\n\n") ∷ precision 6 ∷ rates) cout
        ≡ (codes "\nStatistics:\n\n" ++ text, set_to true 6)
      → print dbl
          (str (codes "\nStatistics:\n\n") ∷ precision 6 ∷ rates
            ++ put_sum dbl num_threads total_qps
            ++ put_counts dbl result
            ++ put_percentage dbl result.queries_completed result.queries_sent
            ++ str (codes "  Percentage lost:      ")
              ∷ put_percentage dbl (lost_count result) result.queries_sent
            ++ put_times dbl result.queries_completed start_time end_time)
          cout
        ≡ (
          report_text text num_threads total_qps result.queries_sent result.queries_completed
              (lost_count result)
              start_time
              end_time,
          set_to true 6,
        )
  parts rates text num_threads total_qps result start_time end_time first =
      print_both dbl _ _ _ _ _ _ _
        (print_both dbl _ _ _ _ _ _ _
          (print_both dbl _ _ _ _ _ _ _
            (print_both dbl _ _ _ _ _ _ _
              (print_both dbl _ _ _ _ _ _ _ first (put_sum-line dbl num_threads total_qps))
              (put_counts-lines dbl result))
            (put_percentage-line dbl result.queries_completed result.queries_sent))
          (lost_line dbl (lost_count result) result.queries_sent))
        (put_times-lines dbl result.queries_completed start_time end_time)

  module _ {C R : Type 0} where
    -- The report of at least one thread.
    pub put_report-lines :
        (d : Dispatcher C R) (ds : List (Dispatcher C R)) (start_time end_time : ℕ)
        → let result = total_result (d ∷ ds) in
          print dbl (put_report dbl (d ∷ ds) start_time end_time) cout ≡ (
            report_text
                (rate_lines dbl 0 (d ∷ ds))
                (length (d ∷ ds))
                (sum_of dbl (dbl.of_size 0) (d ∷ ds))
                result.queries_sent
                result.queries_completed
                (lost_count result)
                start_time
                end_time,
            set_to true 6,
          )
    unfolding put_report total_result
    put_report-lines d ds start_time end_time =
        let none_yet : QueryStatistics = record { queries_sent = 0; queries_completed = 0 } in
        let (rates, result, total_qps) = put_rates dbl 0 (d ∷ ds) none_yet (dbl.of_size 0) in
        let (counts, sum) = put_rates-sums dbl 0 (d ∷ ds) none_yet (dbl.of_size 0) in
        parts rates (rate_lines dbl 0 (d ∷ ds)) (length (d ∷ ds)) total_qps result start_time
          end_time
          (opened rates (rate_lines dbl 0 (d ∷ ds))
            (put_rates-first dbl false 0 d ds none_yet (dbl.of_size 0)))
        ∙ ap
            (λ (r : QueryStatistics). (
              report_text (rate_lines dbl 0 (d ∷ ds)) (length (d ∷ ds)) total_qps r.queries_sent
                  r.queries_completed (lost_count r) start_time end_time,
              set_to true 6,
            ))
            counts
        ∙ ap
            (λ (x : W). (
              report_text (rate_lines dbl 0 (d ∷ ds)) (length (d ∷ ds)) x
                  (total_result (d ∷ ds)).queries_sent (total_result (d ∷ ds)).queries_completed
                  (lost_count (total_result (d ∷ ds))) start_time end_time,
              set_to true 6,
            ))
            sum
