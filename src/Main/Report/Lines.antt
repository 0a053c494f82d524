-- ===== src/Main/Report/Lines.antt =====
-- The lines of the report of src/bin/queryperfpp/queryperfpp.cc, with what the manipulators of the
-- stream come to.
use mathlib.Core.List.{append_assoc}
use queryperfpp.Base.{
  Option, ℕ, suc, ◌≡◌, refl, ltb, Bool, true, false, some, List, [], ◌∷◌, ◌++◌, if◌then◌else◌, Text,
  codes, ap, ◌∙◌, sym,
}
use queryperfpp.Stream.Decimal.{decimal}
use queryperfpp.Dispatcher.Types.{Dispatcher}
use queryperfpp.Main.Statistics.{QueryStatistics, accumulate_result, accumulate_all}
use queryperfpp.Main.Report.{
  Double, Item, str, Format, filled_to, insert, print, rate, put_rates, put_sum, put_counts,
  put_percentage, put_times,
}

-- Between two outputs.
abbrev pub set_to : Bool → ℕ → Format
set_to is_fixed digits = record { is_fixed = is_fixed; digits = digits; width = 0 }

-- Texts in front of a text.
abbrev joined : List Text → Text → Text
joined [] text = text
joined (t ∷ ts) text = t ++ joined ts text

module _ {W : Type 0} (dbl : Double W) where
  print-append :
      (xs ys : List (Item W)) (f : Format)
      → print dbl (xs ++ ys) f ≡ (
        (print dbl xs f).0 ++ (print dbl ys (print dbl xs f).1).0,
        (print dbl ys (print dbl xs f).1).1,
      )
  unfolding print
  print-append [] ys f = refl
  print-append (x ∷ xs) ys f =
      let (text, g) = insert dbl x f in
      rw (print-append xs ys g) (
        ap (λ (t : Text). (t, (print dbl ys (print dbl xs g).1).1))
          (sym (append_assoc text (print dbl xs g).0 (print dbl ys (print dbl xs g).1).0)))

  -- Two parts, one behind the other.
  pub print_both :
      (xs ys : List (Item W)) (f g h : Format) (t u : Text)
      → print dbl xs f ≡ (t, g)
      → print dbl ys g ≡ (u, h)
      → print dbl (xs ++ ys) f ≡ (t ++ u, h)
  print_both xs ys f g h t u p q =
      print-append xs ys f
      ∙ ap (λ (x : Text × Format). (x.0 ++ (print dbl ys x.1).0, (print dbl ys x.1).1)) p
      ∙ ap (λ (x : Text × Format). (t ++ x.0, x.1)) q

  -- One part or another.
  print-if :
      (b : Bool) (xs ys : List (Item W)) (f : Format) {g : Format} {t u : Text}
      → print dbl xs f ≡ (t, g)
      → print dbl ys f ≡ (u, g)
      → print dbl (if b then xs else ys) f ≡ (if b then t else u, g)
  print-if true xs ys f p q = p
  print-if false xs ys f p q = q

  -- All numbers that are not counts have a fixed number of digits behind the point: rates and the
  -- duration 6, percentages 2, these in 6 places at least.
  abbrev pub rate_text : W → Text
  rate_text x = dbl.show_double true 6 x

  -- Queries per second: a count over the seconds between two times.
  abbrev pub per_second : ℕ → Option ℕ → Option ℕ → W
  per_second count started ended =
      dbl.div (dbl.of_size count) (dbl.div (dbl.microseconds started ended) (dbl.of_size 1000000))

  -- The rate of one thread: the queries that it completed, between its start and its end.
  abbrev pub thread_rate : {C R : Type 0} → Dispatcher C R → W
  thread_rate d = per_second d.queries_completed d.start_time d.end_time

  abbrev pub percent_text : ℕ → ℕ → Text
  percent_text part whole =
      if ltb 0 whole
      then joined
          (filled_to 6 (
              dbl.show_double true 2
                (dbl.mul (dbl.div (dbl.of_size part) (dbl.of_size whole)) (dbl.of_size 100)))
            ∷ codes "%\n"
            ∷ [])
          []
      else codes "N/A\n"

  module _ {C R : Type 0} where
    -- The line of one thread, in front of a text.
    abbrev pub rate_line : ℕ → Dispatcher C R → Text → Text
    rate_line i d = joined (
        codes "  Queries per second #"
        ∷ decimal i
        ∷ codes ":  "
        ∷ rate_text (thread_rate d)
        ∷ codes " qps\n"
        ∷ [])

    -- A line for each thread, numbered.
    abbrev pub rate_lines : ℕ → List (Dispatcher C R) → Text
    rate_lines i [] = []
    rate_lines i (d ∷ ds) = rate_line i d (rate_lines (suc i) ds)

    abbrev pub sum_of : W → List (Dispatcher C R) → W
    sum_of x [] = x
    sum_of x (d ∷ ds) = sum_of (dbl.add x (thread_rate d)) ds

    pub put_rates-sums :
        (i : ℕ) (ds : List (Dispatcher C R)) (result : QueryStatistics) (x : W)
        → ((put_rates dbl i ds result x).1 ≡ accumulate_all ds result)
          × ((put_rates dbl i ds result x).2 ≡ sum_of x ds)
    unfolding put_rates accumulate_all rate
    put_rates-sums i [] result x = (refl, refl)
    put_rates-sums i (d ∷ ds) result x =
        put_rates-sums (suc i) ds (accumulate_result d result) (dbl.add x (thread_rate d))

    put_rates-lines :
        (i : ℕ) (ds : List (Dispatcher C R)) (result : QueryStatistics) (x : W)
        → print dbl (put_rates dbl i ds result x).0 (set_to true 6)
          ≡ (rate_lines i ds, set_to true 6)
    unfolding put_rates print insert rate
    put_rates-lines i [] result x = refl
    put_rates-lines i (d ∷ ds) result x =
        ap (λ (y : Text × Format). (rate_line i d y.0, y.1))
          (put_rates-lines (suc i) ds (accumulate_result d result) (dbl.add x (thread_rate d)))

    -- The first rate sets `std::fixed` for all that follows.
    pub put_rates-first :
        (b : Bool) (i : ℕ) (d : Dispatcher C R) (ds : List (Dispatcher C R))
        (result : QueryStatistics) (x : W)
        → print dbl (put_rates dbl i (d ∷ ds) result x).0 (set_to b 6)
          ≡ (rate_lines i (d ∷ ds), set_to true 6)
    unfolding put_rates print insert rate
    put_rates-first b i d ds result x =
        ap (λ (y : Text × Format). (rate_line i d y.0, y.1))
          (put_rates-lines (suc i) ds (accumulate_result d result) (dbl.add x (thread_rate d)))

  abbrev pub sum_line : ℕ → W → Text
  sum_line num_threads x =
      if ltb 1 num_threads
      then joined (codes "         Summarized QPS:  " ∷ rate_text x ∷ codes " qps\n" ∷ []) []
      else []

  pub put_sum-line :
      (num_threads : ℕ) (x : W)
      → print dbl (put_sum dbl num_threads x) (set_to true 6)
        ≡ (sum_line num_threads x, set_to true 6)
  unfolding put_sum print insert
  put_sum-line num_threads x = print-if (ltb 1 num_threads) _ _ _ refl refl

  abbrev pub count_lines : ℕ → ℕ → Text
  count_lines sent completed =
      joined
        (codes "\n  Queries sent:         "
          ∷ decimal sent
          ∷ codes " queries\n  Queries completed:    "
          ∷ decimal completed
          ∷ codes " queries\n\n  Percentage completed: "
          ∷ [])
        []

  pub put_counts-lines :
      (result : QueryStatistics)
      → print dbl (put_counts dbl result) (set_to true 6)
        ≡ (count_lines result.queries_sent result.queries_completed, set_to true 2)
  unfolding put_counts print insert
  put_counts-lines result = refl

  pub put_percentage-line :
      (part queries_sent : ℕ)
      → print dbl (put_percentage dbl part queries_sent) (set_to true 2)
        ≡ (percent_text part queries_sent, set_to true 2)
  unfolding put_percentage print insert
  put_percentage-line part queries_sent = print-if (ltb 0 queries_sent) _ _ _ refl refl

  pub lost_line :
      (lost queries_sent : ℕ)
      → print dbl
          (str (codes "  Percentage lost:      ") ∷ put_percentage dbl lost queries_sent)
          (set_to true 2)
        ≡ (codes "  Percentage lost:      " ++ percent_text lost queries_sent, set_to true 2)
  unfolding print insert
  lost_line lost queries_sent =
      ap (λ (x : Text × Format). (codes "  Percentage lost:      " ++ x.0, x.1))
        (put_percentage-line lost queries_sent)

  abbrev pub time_lines : ℕ → ℕ → ℕ → Text
  time_lines queries_completed start_time end_time =
      let run_for =
        dbl.div (dbl.microseconds (some start_time) (some end_time)) (dbl.of_size 1000000) in
      joined
        (codes "\n  Started at:           "
          ∷ dbl.show_time start_time
          ∷ codes "\n  Finished at:          "
          ∷ dbl.show_time end_time
          ∷ codes "\n  Run for:              "
          ∷ rate_text run_for
          ∷ codes " seconds\n\n  Queries per second:   "
          ∷ rate_text (per_second queries_completed (some start_time) (some end_time))
          ∷ codes " qps\n\n"
          ∷ [])
        []

  pub put_times-lines :
      (queries_completed start_time end_time : ℕ)
      → print dbl (put_times dbl queries_completed start_time end_time) (set_to true 2)
        ≡ (time_lines queries_completed start_time end_time, set_to true 6)
  unfolding put_times print insert
  put_times-lines queries_completed start_time end_time = refl
