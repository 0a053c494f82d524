-- ===== src/Main/Workers.antt =====
-- The worker threads of src/bin/queryperfpp/queryperfpp.cc, each with a dispatcher of its own, and
-- the total of their counts.
use queryperfpp.Base.{
  ℕ, ◌+◌, ◌≤◌, ◌<◌, ◌≡◌, List, [], ◌∷◌, map, length, Option, Text, arith, Result, ok, err,
}
use queryperfpp.Dispatcher.Types.{Source, Dispatcher}
use queryperfpp.Dispatcher.Query.{u64_mod}
use queryperfpp.Dispatcher.Loop.{Delivery}
use queryperfpp.Dispatcher.Session.{run}
use queryperfpp.Dispatcher.Invariant.{Post, Within}
use queryperfpp.Dispatcher.Invariant.Session.{IsFresh, run-Post}
use queryperfpp.Main.Statistics.{
  run_queryperf, total_result, lost_count, all_sent, all_completed, AllCounted, total_result-lost,
}

-- A dispatcher, what its message manager delivers, and the times of its start and its end.
pub record Worker (C R : Type 0) : Type 0 where
  pub dispatcher : Dispatcher C R
  pub deliveries : List Delivery
  pub now : ℕ
  pub later : ℕ

module _ {C R : Type 0} (source : Source C R) (parse_qid : Text → Option ℕ) where
  -- The thread, and the dispatcher behind it.
  unfoldable pub run_thread : Worker C R → Result (Unit {0}) × Dispatcher C R
  unfolding run_queryperf
  run_thread w = run_queryperf (run source parse_qid w.now w.deliveries w.later w.dispatcher)

  unfoldable pub work : Worker C R → Dispatcher C R
  unfolding run_thread
  work w = (run_thread w).1

  -- The loop over `pthread_join`. It does not end if a thread does not, and a thread that is aborted
  -- takes the program with it.
  unfoldable pub join_all : List (Worker C R) → Result (Unit {0})
  unfolding run_thread
  join_all [] = ok tt
  join_all (w ∷ ws) =
      let rest = join_all ws in elim (run_thread w).0 [ err e ↦ err e | ok _ ↦ rest ]

  -- Dispatchers that have not run, with fewer than 2^64 callbacks.
  abbrev pub AllFresh : List (Worker C R) → Type 0
  AllFresh [] = Unit
  AllFresh (w ∷ ws) =
      IsFresh w.dispatcher × (w.dispatcher.window + length w.deliveries < u64_mod) × AllFresh ws

  counted :
      (limit : ℕ) (r : Result (Unit {0})) (d : Dispatcher C R)
      → Post (Within limit) (r, d)
      → (run_queryperf (r, d)).1.queries_completed ≤ (run_queryperf (r, d)).1.queries_sent
  unfolding run_queryperf
  counted limit (ok _) d p = omega (arith, p.0.books)
  counted limit (err e) d p = p

  work-counted :
      (w : Worker C R)
      → IsFresh w.dispatcher
      → w.dispatcher.window + length w.deliveries < u64_mod
      → (work w).queries_completed ≤ (work w).queries_sent
  unfolding work
  work-counted w fresh small =
      let (r, d) = run source parse_qid w.now w.deliveries w.later w.dispatcher in
      counted _ r d (run-Post source parse_qid w.now w.later w.deliveries w.dispatcher fresh small)

  workers-AllCounted : (ws : List (Worker C R)) → AllFresh ws → AllCounted (map work ws)
  workers-AllCounted [] h = tt
  workers-AllCounted (w ∷ ws) (fresh, small, rest) =
      (work-counted w fresh small, workers-AllCounted ws rest)

  -- Whatever happens in the threads, exceptions included: if the sum of the queries that they sent fits
  -- in 64 bits, it is the total of the report; the queries completed are added up too, and those lost
  -- make up the rest.
  pub total_result-work :
      (ws : List (Worker C R))
      → AllFresh ws
      → all_sent (map work ws) < u64_mod
      → ((total_result (map work ws)).queries_sent ≡ all_sent (map work ws))
        × ((total_result (map work ws)).queries_completed + lost_count (total_result (map work ws))
            ≡ all_sent (map work ws))
        × ((total_result (map work ws)).queries_completed ≡ all_completed (map work ws))
  total_result-work ws fresh small =
      total_result-lost (map work ws) (workers-AllCounted ws fresh) small
