-- ===== src/Main/Threads.antt =====
-- The dispatchers that src/bin/queryperfpp/queryperfpp.cc prepares, and the threads that it starts for
-- them.
use queryperfpp.Base.{
  ℕ, zero, suc, ◌+◌, ◌<◌, ◌≡◌, refl, subst, Bool, true, false, List, [], ◌∷◌, length, Option, Text,
  arith, Result, ok, err, thread_failure, if◌then◌else◌,
}
use queryperfpp.Repository.Dns.{Dns}
use queryperfpp.Repository.State.{Repository}
use queryperfpp.Context.{Message, QueryContext}
use queryperfpp.Dispatcher.Types.{Dispatcher}
use queryperfpp.Dispatcher.Query.{u64_mod}
use queryperfpp.Dispatcher.Settings.{default_window}
use queryperfpp.Traffic.{context_source}
use queryperfpp.Main.Options.{Options, Checked}
use queryperfpp.Main.Prepare.{Env, prepare_all, prepare_one}
use queryperfpp.Main.Prepared.{IsPrepared, Prepares, prepare_one-Prepares}
use queryperfpp.Main.Workers.{Worker, AllFresh}
use queryperfpp.Main.Program.{Thread, worker, start_threads}

module _ (threads : ℕ → Thread) {C R : Type 0} where
  -- The dispatchers with what their threads meet, from number `i` on.
  abbrev pub workers : ℕ → List (Dispatcher C R) → List (Worker C R)
  workers i [] = []
  workers i (d ∷ ds) = worker (threads i) d ∷ workers (suc i) ds

  pub start_threads-workers :
      (i : ℕ) (ds : List (Dispatcher C R)) (ws : List (Worker C R))
      → start_threads threads i ds ≡ ok ws
      → ws ≡ workers i ds
  unfolding start_threads
  start_threads-workers i [] ws e = cc
  start_threads-workers i (d ∷ ds) ws e =
      go (threads i).create_fails (start_threads threads (suc i) ds)
        (start_threads-workers (suc i) ds) e
    where
      go :
          (b : Bool) (rest : Result (List (Worker C R)))
          → ((ws' : List (Worker C R)) → rest ≡ ok ws' → ws' ≡ workers (suc i) ds)
          → (if b
              then err thread_failure
              else elim rest [ err x ↦ err x | ok ws' ↦ ok (worker (threads i) d ∷ ws') ])
            ≡ ok ws
          → ws ≡ workers i (d ∷ ds)
      go true rest h q = cc
      go false (err x) h q = cc
      go false (ok ws') h q = let same = h ws' refl in cc

module _ (env : Env) (dns : Dns) (o : Options) (c : Checked) where
  -- Each dispatcher is as the options ask for.
  abbrev pub AllPrepared : List (Dispatcher QueryContext Repository) → Type 0
  AllPrepared [] = Unit
  AllPrepared (d ∷ ds) = IsPrepared env dns o c d × AllPrepared ds

  pub prepare_all-AllPrepared :
      (n : ℕ) (ds : List (Dispatcher QueryContext Repository))
      → prepare_all env dns n o c ≡ ok ds
      → (length ds ≡ n) × AllPrepared ds
  unfolding prepare_all
  prepare_all-AllPrepared zero [] e = (refl, tt)
  prepare_all-AllPrepared zero (d ∷ ds) e = cc
  prepare_all-AllPrepared (suc n) ds e =
      go (prepare_one env dns o c) (prepare_all env dns n o c)
        (prepare_one-Prepares QueryContext env dns o c) (prepare_all-AllPrepared n) ds e
    where
      go :
          (one : Result (Dispatcher QueryContext Repository))
          (rest : Result (List (Dispatcher QueryContext Repository)))
          → Prepares QueryContext env dns o c one
          → ((es : List (Dispatcher QueryContext Repository))
              → rest ≡ ok es
              → (length es ≡ n) × AllPrepared es)
          → (es : List (Dispatcher QueryContext Repository))
          → elim one [ err x ↦ err x | ok d ↦ elim rest [ err x ↦ err x | ok ds' ↦ ok (d ∷ ds') ] ]
            ≡ ok es
          → (length es ≡ suc n) × AllPrepared es
      go (err x) rest p h es q = cc
      go (ok d) (err x) p h es q = cc
      go (ok d) (ok ds') p h [] q = cc
      go (ok d) (ok ds') p h (f ∷ es) q =
          let (size, all) = h es (cc) in
          (omega (arith, size), (subst (IsPrepared env dns o c) (cc) p, all))

  -- Fresh dispatchers, with so few callbacks that no counter wraps.
  pub workers-AllFresh :
      (fuel : ℕ) (to_wire : Message → Text) (parse_qid : Text → Option ℕ) (threads : ℕ → Thread)
      → ((i : ℕ) → default_window + length (threads i).deliveries < u64_mod)
      → (i : ℕ) (ds : List (Dispatcher QueryContext Repository)) → AllPrepared ds
      → AllFresh (context_source dns fuel to_wire) parse_qid (workers threads i ds)
  unfolding worker
  workers-AllFresh fuel to_wire parse_qid threads few i [] p = tt
  workers-AllFresh fuel to_wire parse_qid threads few i (d ∷ ds) (p, ps) = (
    record {
      unsent = p.fresh.unsent;
      uncompleted = p.fresh.uncompleted;
      first_id = p.fresh.first_id;
      empty = p.fresh.empty;
      sending = p.fresh.sending;
      running = p.fresh.running;
      window_open = p.fresh.window_open;
      no_socket = p.fresh.no_socket;
    },
    omega (arith, p.window, few i),
    workers-AllFresh fuel to_wire parse_qid threads few (suc i) ds ps,
  )
