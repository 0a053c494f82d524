-- ===== src/Main/Report.antt =====
-- The report of src/bin/queryperfpp/queryperfpp.cc: what `main` writes to the standard output behind
-- the threads, with its floating-point rates.
pub mod Lines
pub mod Whole
pub mod Printed
use queryperfpp.Base.{
  zero, ℕ, suc, ◌-◌, ltb, Bool, true, false, Option, some, List, [], ◌∷◌, ◌++◌, if◌then◌else◌, Text,
  codes, length,
}
use queryperfpp.Stream.Decimal.{decimal}
use queryperfpp.Dispatcher.Types.{Dispatcher, get_queries_completed, get_start_time, get_end_time}
use queryperfpp.Main.Statistics.{QueryStatistics, accumulate_result, lost_count}
use queryperfpp.Main.Usage.{spaces}

-- C++'s doubles and boost's times, as the report uses them. `none` is a time that was never set.
pub record Double (W : Type 0) : Type 0 where
  pub of_size : ℕ → W
  pub add : W → W → W
  pub mul : W → W → W
  pub div : W → W → W
  -- `total_microseconds` of the time from the first to the second.
  pub microseconds : Option ℕ → Option ℕ → W
  -- `<<`, by `std::fixed` and the precision.
  pub show_double : Bool → ℕ → W → Text
  pub show_time : ℕ → Text

-- What is put into the stream, manipulators included.
pub data Item (W : Type 0) : Type 0 where
  str : Text → Item W
  size : ℕ → Item W
  double : W → Item W
  time : ℕ → Item W
  fixed : Item W
  precision : ℕ → Item W
  setw : ℕ → Item W

-- What the manipulators have set.
pub record Format : Type 0 where
  pub is_fixed : Bool
  pub digits : ℕ
  pub width : ℕ

-- `std::cout`, before anything was put into it.
abbrev pub cout : Format
cout = record { is_fixed = false; digits = 6; width = 0 }

-- A text that is shorter than the width is filled up in front; a width is good for one output.
abbrev pub filled_to : ℕ → Text → Text
filled_to zero text = text
filled_to (suc width) text = spaces (suc width - length text) ++ text

abbrev padded : Text → Format → Text × Format
padded text f = (filled_to f.width text, record f { width = 0 })

module _ {W : Type 0} (dbl : Double W) where
  unfoldable pub insert : Item W → Format → Text × Format
  insert (str text) f = padded text f
  insert (size n) f = padded (decimal n) f
  insert (double x) f = padded (dbl.show_double f.is_fixed f.digits x) f
  insert (time t) f = padded (dbl.show_time t) f
  insert fixed f = ([], record f { is_fixed = true })
  insert (precision n) f = ([], record f { digits = n })
  insert (setw n) f = ([], record f { width = n })

  unfoldable pub print : List (Item W) → Format → Text × Format
  unfolding insert
  print [] f = ([], f)
  print (i ∷ items) f =
      let (text, g) = insert i f in let (rest, h) = print items g in (text ++ rest, h)

  -- `static_cast<double>(duration.total_microseconds()) / 1000000`
  abbrev pub seconds : Option ℕ → Option ℕ → W
  seconds started ended = dbl.div (dbl.microseconds started ended) (dbl.of_size 1000000)

  -- `(static_cast<double>(part) / whole) * 100`
  abbrev pub percentage : ℕ → ℕ → W
  percentage part whole = dbl.mul (dbl.div (dbl.of_size part) (dbl.of_size whole)) (dbl.of_size 100)

  module _ {C R : Type 0} where
    -- The rate that `accumulateResult` returns.
    unfoldable pub rate : Dispatcher C R → W
    rate d =
        dbl.div (dbl.of_size (get_queries_completed d))
          (seconds (get_start_time d) (get_end_time d))

    -- The loop over the dispatchers: what is put, the counts, and the sum of the rates.
    unfoldable pub put_rates :
        ℕ → List (Dispatcher C R) → QueryStatistics → W → List (Item W) × QueryStatistics × W
    unfolding accumulate_result rate
    put_rates i [] result total_qps = ([], result, total_qps)
    put_rates i (d ∷ ds) result total_qps =
        let qps = rate d in
        let (items, counts, sum) =
          put_rates (suc i) ds (accumulate_result d result) (dbl.add total_qps qps) in
        (
          str (codes "  Queries per second #")
              ∷ size i
              ∷ str (codes ":  ")
              ∷ fixed
              ∷ double qps
              ∷ str (codes " qps\n")
              ∷ items,
          counts,
          sum,
        )

  unfoldable pub put_sum : ℕ → W → List (Item W)
  put_sum num_threads total_qps =
      if ltb 1 num_threads
      then str (codes "         Summarized QPS:  ")
        ∷ fixed
        ∷ double total_qps
        ∷ str (codes " qps\n")
        ∷ []
      else []

  unfoldable pub put_counts : QueryStatistics → List (Item W)
  put_counts result =
      str (codes "\n")
      ∷ str (codes "  Queries sent:         ")
      ∷ size result.queries_sent
      ∷ str (codes " queries\n")
      ∷ str (codes "  Queries completed:    ")
      ∷ size result.queries_completed
      ∷ str (codes " queries\n")
      ∷ str (codes "\n")
      ∷ str (codes "  Percentage completed: ")
      ∷ precision 2
      ∷ []

  -- One of the two percentages, if any query was sent.
  unfoldable pub put_percentage : ℕ → ℕ → List (Item W)
  put_percentage part queries_sent =
      if ltb 0 queries_sent
      then setw 6 ∷ double (percentage part queries_sent) ∷ str (codes "%\n") ∷ []
      else str (codes "N/A\n") ∷ []

  unfoldable pub put_times : ℕ → ℕ → ℕ → List (Item W)
  put_times queries_completed start_time end_time =
      let run_for = seconds (some start_time) (some end_time) in
      str (codes "\n")
      ∷ str (codes "  Started at:           ")
      ∷ time start_time
      ∷ str (codes "\n")
      ∷ str (codes "  Finished at:          ")
      ∷ time end_time
      ∷ str (codes "\n")
      ∷ str (codes "  Run for:              ")
      ∷ precision 6
      ∷ double run_for
      ∷ str (codes " seconds\n")
      ∷ str (codes "\n")
      ∷ precision 6
      ∷ str (codes "  Queries per second:   ")
      ∷ fixed
      ∷ double (dbl.div (dbl.of_size queries_completed) run_for)
      ∷ str (codes " qps\n")
      ∷ str (codes "\n")
      ∷ []

  -- From "Statistics" to the end.
  unfoldable pub put_report : {C R : Type 0} → List (Dispatcher C R) → ℕ → ℕ → List (Item W)
  unfolding put_rates put_sum put_counts put_percentage put_times lost_count
  put_report ds start_time end_time =
      let none_yet : QueryStatistics = record { queries_sent = 0; queries_completed = 0 } in
      let (rates, result, total_qps) = put_rates 0 ds none_yet (dbl.of_size 0) in
      str (codes "\nStatistics:\n\n") ∷ precision 6 ∷ rates
      ++ put_sum (length ds) total_qps
      ++ put_counts result
      ++ put_percentage result.queries_completed result.queries_sent
      ++ str (codes "  Percentage lost:      ")
        ∷ put_percentage (lost_count result) result.queries_sent
      ++ put_times result.queries_completed start_time end_time
