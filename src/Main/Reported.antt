-- ===== src/Main/Reported.antt =====
-- What the report of src/bin/queryperfpp/queryperfpp.cc says of the test, whenever `main` ends with
-- status 0.
use queryperfpp.Base.{
  Error, is_fatal, ℕ, suc, ◌+◌, ◌≤◌, ◌<◌, ◌≡◌, refl, sym, ap, subst, ◌∙◌, Bool, true, false, ◌&&◌,
  ltb, List, [], ◌∷◌, map, length, Option, Text, arith, Result, ok, err, stdin_threads,
  if◌then◌else◌,
}
use queryperfpp.Repository.Dns.{Dns}
use queryperfpp.Repository.State.{Repository}
use queryperfpp.Context.{Message, QueryContext}
use queryperfpp.Dispatcher.Types.{Dispatcher}
use queryperfpp.Dispatcher.Query.{u64_mod}
use queryperfpp.Dispatcher.Settings.{default_window}
use queryperfpp.Traffic.{context_source}
use queryperfpp.Main.Options.{Options, Checked, default_options, take_options, validate}
use queryperfpp.Main.Prepare.{Env, prepare, prepare_all, choose_threads, is_stdin}
use queryperfpp.Main.Statistics.{QueryStatistics, total_result, lost_count, all_sent, all_completed}
use queryperfpp.Main.Workers.{join_all, Worker, work, total_result-work}
use queryperfpp.Main.Program.{
  leave_with, stuck, Thread, start_threads, failed, finished, run_threads, perform_test,
  check_options, main,
}
use queryperfpp.Main.Threads.{
  workers, start_threads-workers, AllPrepared, prepare_all-AllPrepared, workers-AllFresh,
}

module _ (env : Env) (dns : Dns) (fuel : ℕ) (to_wire : Message → Text) (parse_qid : Text → Option ℕ)
    (threads : ℕ → Thread) where
  -- A report: the options were taken and are valid; as many dispatchers as they say were prepared, one
  -- only if the standard input is read; each was run in a thread, which came to its end; the counts are
  -- theirs.
  pub record IsReport (args : List (ℕ × Text)) (ds : List (Dispatcher QueryContext Repository))
      (result : QueryStatistics) : Type 0 where
    pub options : Options
    pub checked : Checked
    pub taken : take_options args default_options ≡ ok options
    pub valid : validate options ≡ ok checked
    pub count : choose_threads env options.num_threads_txt ≡ ok (length ds)
    pub one_reader : is_stdin checked.input ≡ true → length ds ≤ 1
    pub prepared : List (Dispatcher QueryContext Repository)
    pub all_prepared : AllPrepared env dns options checked prepared
    pub runs :
        ds ≡ map (work (context_source dns fuel to_wire) parse_qid) (workers threads 0 prepared)
    pub returned :
        join_all (context_source dns fuel to_wire) parse_qid (workers threads 0 prepared) ≡ ok tt
    pub sent : result.queries_sent ≡ all_sent ds
    pub counted : result ≡ total_result ds
    pub completed : result.queries_completed ≡ all_completed ds
    pub books : result.queries_completed + lost_count result ≡ all_sent ds

  -- There is no report if `main` leaves with an error.
  leave_with-silent :
      (e : Error) (ds : List (Dispatcher QueryContext Repository)) (result : QueryStatistics)
      → leave_with e ≡ finished ds result
      → ⊥
  unfolding leave_with
  leave_with-silent e ds result = go (is_fatal e)
    where
      go : (b : Bool) → (if b then stuck e else failed e) ≡ finished ds result → ⊥
      go true q = cc
      go false q = cc

  run_threads-finished :
      (ws : List (Worker QueryContext Repository)) (ds : List (Dispatcher QueryContext Repository))
      (result : QueryStatistics)
      → run_threads env dns fuel to_wire parse_qid threads (ok ws) ≡ finished ds result
      → (join_all (context_source dns fuel to_wire) parse_qid ws ≡ ok tt)
        × (ds ≡ map (work (context_source dns fuel to_wire) parse_qid) ws)
        × (result ≡ total_result ds)
  unfolding run_threads
  run_threads-finished ws ds result = go (join_all (context_source dns fuel to_wire) parse_qid ws)
    where
      all : List (Dispatcher QueryContext Repository)
      all = map (work (context_source dns fuel to_wire) parse_qid) ws

      go :
          (x : Result (Unit {0}))
          → elim x [ err e ↦ stuck e | ok _ ↦ finished all (total_result all) ] ≡ finished ds result
          → (x ≡ ok tt) × (ds ≡ all) × (result ≡ total_result ds)
      go (err e) q = cc
      go (ok u) q =
          let same : ds ≡ all = cc in
          let total : result ≡ total_result all = cc in
          (
            refl,
            same,
            total
                ∙ ap (λ (es : List (Dispatcher QueryContext Repository)). total_result es)
                    (sym same),
          )

  -- What `prepare` returns.
  abbrev Prepared : Options → Checked → List (Dispatcher QueryContext Repository) → Type 0
  Prepared o c ds =
      (choose_threads env o.num_threads_txt ≡ ok (length ds))
      × (is_stdin c.input ≡ true → length ds ≤ 1)
      × AllPrepared env dns o c ds

  prepare-Prepared :
      (o : Options) (c : Checked) (ds : List (Dispatcher QueryContext Repository))
      → prepare env dns o c ≡ ok ds
      → Prepared o c ds
  unfolding prepare
  prepare-Prepared o c ds e = go (choose_threads env o.num_threads_txt) refl e
    where
      go :
          (x : Result ℕ)
          → choose_threads env o.num_threads_txt ≡ x
          → elim x [
            | err y ↦ err y
            | ok n ↦
                if ltb 1 n && is_stdin c.input then err stdin_threads else prepare_all env dns n o c
          ]
            ≡ ok ds
          → Prepared o c ds
      go (err y) p q = cc
      go (ok n) p q = test (ltb 1 n) (is_stdin c.input) refl refl q
        where
          given :
              prepare_all env dns n o c ≡ ok ds
              → (is_stdin c.input ≡ true → n ≤ 1)
              → Prepared o c ds
          given r one =
              let (size, all) = prepare_all-AllPrepared env dns o c n ds r in
              (p ∙ ap ok (sym size), (λ s. omega (arith, size, one s)), all)

          test :
              (many stdin : Bool)
              → ltb 1 n ≡ many
              → is_stdin c.input ≡ stdin
              → (if many && stdin then err stdin_threads else prepare_all env dns n o c) ≡ ok ds
              → Prepared o c ds
          test true true m s r = cc
          test true false m s r = given r λ t. cc
          test false stdin m s r = given r λ _. ground arith

  length-workers :
      (i : ℕ) (es : List (Dispatcher QueryContext Repository))
      → length es
        ≡ length (map (work (context_source dns fuel to_wire) parse_qid) (workers threads i es))
  length-workers i [] = refl
  length-workers i (e ∷ es) = ap suc (length-workers (suc i) es)

  run_threads-IsReport :
      (o : Options) (c : Checked) (args : List (ℕ × Text))
      (prepared ds : List (Dispatcher QueryContext Repository)) (result : QueryStatistics)
      → ((i : ℕ) → default_window + length (threads i).deliveries < u64_mod)
      → all_sent ds < u64_mod
      → take_options args default_options ≡ ok o
      → validate o ≡ ok c
      → Prepared o c prepared
      → run_threads env dns fuel to_wire parse_qid threads (start_threads threads 0 prepared)
        ≡ finished ds result
      → IsReport args ds result
  unfolding run_threads
  run_threads-IsReport o c args prepared ds result few small taken valid (count, one, all) e =
      go (start_threads threads 0 prepared) refl e
    where
      go :
          (x : Result (List (Worker QueryContext Repository)))
          → start_threads threads 0 prepared ≡ x
          → run_threads env dns fuel to_wire parse_qid threads x ≡ finished ds result
          → IsReport args ds result
      go (err y) p q = absurd (leave_with-silent y ds result q)
      go (ok ws) p q =
          let (joined, worked, counts) = run_threads-finished ws ds result q in
          let started : ws ≡ workers threads 0 prepared =
            start_threads-workers threads 0 prepared ws p in
          let runs : ds
              ≡ map (work (context_source dns fuel to_wire) parse_qid)
                  (workers threads 0 prepared) =
            cc in
          let total : result ≡ total_result ds = counts in
          let totals =
            subst
              (λ (es : List (Dispatcher QueryContext Repository)).
                all_sent es < u64_mod
                → ((total_result es).queries_sent ≡ all_sent es)
                  × ((total_result es).queries_completed + lost_count (total_result es)
                      ≡ all_sent es)
                  × ((total_result es).queries_completed ≡ all_completed es))
              (sym runs)
              (total_result-work (context_source dns fuel to_wire) parse_qid
                (workers threads 0 prepared)
                (workers-AllFresh env dns o c fuel to_wire parse_qid threads few 0 prepared all))
              small in
          record {
            options = o;
            checked = c;
            taken = taken;
            valid = valid;
            count =
                count
                ∙ ap ok (
                    sized
                    ∙ sym
                        (ap (λ (es : List (Dispatcher QueryContext Repository)). length es) runs));
            one_reader = λ s. omega (
              arith,
              one s,
              sized,
              ap (λ (es : List (Dispatcher QueryContext Repository)). length es) runs,
            );
            prepared = prepared;
            all_prepared = all;
            runs = runs;
            returned =
                ap
                  (λ (us : List (Worker QueryContext Repository)).
                    join_all (context_source dns fuel to_wire) parse_qid us)
                  (sym started)
                ∙ joined;
            counted = total;
            sent = ap (λ (r : QueryStatistics). r.queries_sent) total ∙ totals.0;
            completed = ap (λ (r : QueryStatistics). r.queries_completed) total ∙ totals.2;
            books =
                ap (λ (r : QueryStatistics). r.queries_completed + lost_count r) total ∙ totals.1;
          }
        where
          sized :
              length prepared
              ≡ length (
                  map
                    (work (context_source dns fuel to_wire) parse_qid)
                    (workers threads 0 prepared))
          sized = length-workers 0 prepared

  -- If `main` ends with status 0, for threads with fewer than 2^64 queries of the default window
  -- and callbacks each, and if the queries sent are together fewer than 2^64: the options were
  -- taken and are valid; as many dispatchers as they say were prepared as they say, one at most if
  -- the standard input is read; each ran in a thread with what its message manager met, and none of
  -- the threads was aborted or went on for ever; the report counts the queries that they sent and
  -- those that they completed, and the queries completed and those lost make up those sent.
  pub main-IsReport :
      (args : List (ℕ × Text)) (ds : List (Dispatcher QueryContext Repository))
      (result : QueryStatistics)
      → ((i : ℕ) → default_window + length (threads i).deliveries < u64_mod)
      → all_sent ds < u64_mod
      → main env dns fuel to_wire parse_qid threads args ≡ finished ds result
      → IsReport args ds result
  unfolding main check_options perform_test
  main-IsReport args ds result few small e = took (take_options args default_options) refl e
    where
      took :
          (x : Result Options)
          → take_options args default_options ≡ x
          → elim x [
            | err y ↦ failed y
            | ok o ↦ check_options env dns fuel to_wire parse_qid threads o
          ]
            ≡ finished ds result
          → IsReport args ds result
      took (err y) p q = cc
      took (ok o) p q = checks (validate o) refl q
        where
          checks :
              (x : Result Checked)
              → validate o ≡ x
              → elim x [
                | err y ↦ failed y
                | ok c ↦ perform_test env dns fuel to_wire parse_qid threads o c
              ]
                ≡ finished ds result
              → IsReport args ds result
          checks (err y) v r = cc
          checks (ok c) v r = prepares (prepare env dns o c) refl r
            where
              prepares :
                  (x : Result (List (Dispatcher QueryContext Repository)))
                  → prepare env dns o c ≡ x
                  → elim x [
                    | err y ↦ leave_with y
                    | ok es ↦
                        run_threads env dns fuel to_wire parse_qid threads
                          (start_threads threads 0 es)
                  ]
                    ≡ finished ds result
                  → IsReport args ds result
              prepares (err y) s k = absurd (leave_with-silent y ds result k)
              prepares (ok es) s k =
                  run_threads-IsReport o c args es ds result few small p v
                    (prepare-Prepared o c es s) k
