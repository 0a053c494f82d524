-- ===== src/Main/Program.antt =====
-- src/bin/queryperfpp/queryperfpp.cc: `main`, from the options to its exit.
use queryperfpp.Base.{
  is_fatal, some, none, ℕ, suc, Bool, List, [], ◌∷◌, map, Option, if◌then◌else◌, Text, Error,
  thread_failure, Result, ok, err,
}
use queryperfpp.Repository.Dns.{Dns}
use queryperfpp.Repository.State.{Repository}
use queryperfpp.Context.{Message, QueryContext}
use queryperfpp.Dispatcher.Types.{Dispatcher}
use queryperfpp.Dispatcher.Loop.{Delivery}
use queryperfpp.Traffic.{context_source}
use queryperfpp.Main.Options.{Options, Checked, default_options, take_options, validate}
use queryperfpp.Main.Prepare.{Env, prepare}
use queryperfpp.Main.Statistics.{QueryStatistics, total_result}
use queryperfpp.Main.Workers.{Worker, work, join_all}

-- What a thread meets: whether `pthread_create` fails, which calls of its message manager fail, what
-- this delivers, and the times of its start and its end.
pub record Thread : Type 0 where
  pub create_fails : Bool
  pub outcomes : List Bool
  pub deliveries : List Delivery
  pub now : ℕ
  pub later : ℕ

unfoldable pub worker : {C R : Type 0} → Thread → Dispatcher C R → Worker C R
worker thread d = record {
  dispatcher = record d { manager = record (d.manager) { outcomes = thread.outcomes } };
  deliveries = thread.deliveries;
  now = thread.now;
  later = thread.later;
}

-- The loop over `pthread_create`.
unfoldable pub start_threads :
    {C R : Type 0} → (ℕ → Thread) → ℕ → List (Dispatcher C R) → Result (List (Worker C R))
unfolding worker
start_threads threads i [] = ok []
start_threads threads i (d ∷ ds) =
    let rest = start_threads threads (suc i) ds in
    if (threads i).create_fails
    then err thread_failure
    else elim rest [ err e ↦ err e | ok ws ↦ ok (worker (threads i) d ∷ ws) ]

-- How `main` ends: with status 1 and a message, with status 0 and the report, over the dispatchers as
-- the threads left them, or in neither way, when the program is aborted or goes on for ever.
pub data Exit : Type 0 where
  failed : Error → Exit
  finished : List (Dispatcher QueryContext Repository) → QueryStatistics → Exit
  stuck : Error → Exit

-- The status that `main` returns, if it does.
abbrev pub exit_status : Exit → Option ℕ
exit_status (failed e) = some 1
exit_status (finished ds result) = some 0
exit_status (stuck e) = none

-- The handler of the `try` block, for exceptions only.
unfoldable pub leave_with : Error → Exit
leave_with e = if is_fatal e then stuck e else failed e

module _ (env : Env) (dns : Dns) (fuel : ℕ) (to_wire : Message → Text) (parse_qid : Text → Option ℕ)
    (threads : ℕ → Thread) where
  unfoldable pub run_threads : Result (List (Worker QueryContext Repository)) → Exit
  unfolding leave_with join_all
  run_threads (err e) = leave_with e
  run_threads (ok ws) =
      let ds = map (work (context_source dns fuel to_wire) parse_qid) ws in
      elim (join_all (context_source dns fuel to_wire) parse_qid ws) [
        | err e ↦ stuck e
        | ok _ ↦ finished ds (total_result ds)
      ]

  -- The `try` block.
  unfoldable pub perform_test : Options → Checked → Exit
  unfolding start_threads run_threads leave_with
  perform_test o c = elim (prepare env dns o c) [
    | err e ↦ leave_with e
    | ok ds ↦ run_threads (start_threads threads 0 ds)
  ]

  -- Behind the options.
  unfoldable pub check_options : Options → Exit
  unfolding perform_test
  check_options o = elim (validate o) [ err e ↦ failed e | ok c ↦ perform_test o c ]

  -- The letters that `getopt` returns, with their arguments, to the exit.
  unfoldable pub main : List (ℕ × Text) → Exit
  unfolding check_options
  main args = elim (take_options args default_options) [ err e ↦ failed e | ok o ↦ check_options o ]
