-- ===== src/Main/Statistics.antt =====
-- The statistics of src/bin/queryperfpp/queryperfpp.cc: the counts of the dispatchers. The rates that
-- are made of them are in Main/Report.antt.
use queryperfpp.Base.{
  is_fatal, ok, err, if◌then◌else◌, ℕ, ◌+◌, ◌-◌, ◌%◌, ◌≤◌, ◌<◌, ◌≡◌, List, [], ◌∷◌, arith, Result,
}
use queryperfpp.Dispatcher.Types.{Dispatcher, get_queries_sent, get_queries_completed}
use queryperfpp.Dispatcher.Query.{u64_mod}

-- `QueryStatistics`, without `qps_results`, which nothing uses.
pub record QueryStatistics : Type 0 where
  pub queries_sent : ℕ
  pub queries_completed : ℕ

unfoldable pub caught : Result (Unit {0}) → Result (Unit {0})
caught (ok u) = ok u
caught (err e) = if is_fatal e then err e else ok tt

module _ {C R : Type 0} where
  -- The two sums of `accumulateResult`.
  unfoldable pub accumulate_result : Dispatcher C R → QueryStatistics → QueryStatistics
  accumulate_result d result = record {
    queries_sent = (result.queries_sent + get_queries_sent d) % u64_mod;
    queries_completed = (result.queries_completed + get_queries_completed d) % u64_mod;
  }

  -- The loop over the dispatchers.
  unfoldable pub accumulate_all : List (Dispatcher C R) → QueryStatistics → QueryStatistics
  unfolding accumulate_result
  accumulate_all [] result = result
  accumulate_all (d ∷ ds) result = accumulate_all ds (accumulate_result d result)

  -- `runQueryperf`: an exception ends the worker, and the dispatcher is counted as it was left. What
  -- is no exception is not caught.
  unfoldable pub run_queryperf :
      Result (Unit {0}) × Dispatcher C R → Result (Unit {0}) × Dispatcher C R
  unfolding caught
  run_queryperf (r, d) = (caught r, d)

unfoldable pub total_result : {C R : Type 0} → List (Dispatcher C R) → QueryStatistics
unfolding accumulate_all
total_result ds = accumulate_all ds (record { queries_sent = 0; queries_completed = 0 })

-- `lost_count`, in `size_t`s.
unfoldable pub lost_count : QueryStatistics → ℕ
lost_count result = (result.queries_sent + (u64_mod - result.queries_completed)) % u64_mod

module _ {C R : Type 0} where
  abbrev pub all_sent : List (Dispatcher C R) → ℕ
  all_sent [] = 0
  all_sent (d ∷ ds) = d.queries_sent + all_sent ds

  abbrev pub all_completed : List (Dispatcher C R) → ℕ
  all_completed [] = 0
  all_completed (d ∷ ds) = d.queries_completed + all_completed ds

  -- No dispatcher has completed more queries than it has sent.
  abbrev pub AllCounted : List (Dispatcher C R) → Type 0
  AllCounted [] = Unit
  AllCounted (d ∷ ds) = (d.queries_completed ≤ d.queries_sent) × AllCounted ds

  accumulate_all-sums :
      (ds : List (Dispatcher C R)) (result : QueryStatistics)
      → AllCounted ds
      → result.queries_completed ≤ result.queries_sent
      → result.queries_sent + all_sent ds < u64_mod
      → ((accumulate_all ds result).queries_sent ≡ result.queries_sent + all_sent ds)
        × ((accumulate_all ds result).queries_completed
            ≡ result.queries_completed + all_completed ds)
        × (all_completed ds ≤ all_sent ds)
  unfolding accumulate_all accumulate_result
  accumulate_all-sums [] result c le small = (omega arith, omega arith, omega arith)
  accumulate_all-sums (d ∷ ds) result c le small =
      let next = accumulate_result d result in
      omega (arith, accumulate_all-sums ds next c.1 (omega arith) (omega arith))

  -- The total of the workers' counts: if the sum of the queries sent fits in 64 bits, it is that sum,
  -- and that of the queries completed, and the queries lost are the others.
  pub total_result-lost :
      (ds : List (Dispatcher C R))
      → AllCounted ds
      → all_sent ds < u64_mod
      → ((total_result ds).queries_sent ≡ all_sent ds)
        × ((total_result ds).queries_completed + lost_count (total_result ds) ≡ all_sent ds)
        × ((total_result ds).queries_completed ≡ all_completed ds)
  unfolding total_result lost_count
  total_result-lost ds c small =
      let zero_result : QueryStatistics = record { queries_sent = 0; queries_completed = 0 } in
      let sums = accumulate_all-sums ds zero_result c (omega arith) (omega arith) in
      (omega (arith, sums), omega (arith, sums), omega (arith, sums))
