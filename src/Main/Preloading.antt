-- ===== src/Main/Preloading.antt =====
-- `queryperf++ -Q text -L` of src/bin/queryperfpp/queryperfpp.cc, up to its thread: it gets there just
-- if the text has a request.
use queryperfpp.Base.{
  thread_failure, empty_preload, is_nil, if◌then◌else◌, ℕ, ◌<◌, ◌≡◌, refl, ap, ◌∙◌, Bool, true,
  false, List, [], ◌∷◌, Option, some, Text, codes, text_eq, Result, ok, err,
}
use queryperfpp.Stream.{open_stream}
use queryperfpp.Repository.Dns.{Request, Dns}
use queryperfpp.Repository.State.{
  Repository, load, set_query_class, set_dnssec, set_edns, set_protocol,
}
use queryperfpp.Repository.Requests.{lines, blanks, requests}
use queryperfpp.Repository.Preload.{Loads, load-Loads}
use queryperfpp.Repository.Streaming.Preloaded.{over-IsOpen}
use queryperfpp.Context.{Message, QueryContext}
use queryperfpp.Dispatcher.Types.{Dispatcher}
use queryperfpp.Dispatcher.Settings.{
  load_queries, set_default_query_class, set_dispatcher_dnssec, set_dispatcher_edns,
  set_dispatcher_protocol, set_server_address, set_server_port, set_test_duration, on_repository,
  guard_repository, set_class,
}
use queryperfpp.Main.Options.{
  query_text, Options, Checked, default_options, take_options, validate, take_option, choose_input,
  parse_on_off_flag, choose_proto,
}
use queryperfpp.Main.Prepare.{
  Env, configure, with_cast, when, make_dispatcher, prepare_one, configured, prepare, prepare_all,
  choose_threads, is_stdin, casted,
}
use queryperfpp.Main.Workers.{Worker}
use queryperfpp.Main.Program.{
  leave_with, Thread, main, Exit, failed, worker, check_options, perform_test, start_threads,
  run_threads,
}

-- `queryperf++ -Q text -L`
abbrev pub preload_args : Text → List (ℕ × Text)
preload_args text = (b'Q', text) ∷ (b'L', []) ∷ []

abbrev preload_options : Text → Options
unfolding default_options
preload_options text = record default_options { query_txt = some text; preload = true }

abbrev preload_checked : Text → Checked
preload_checked text = record {
  input = query_text text;
  dnssec_flag = true;
  edns_flag = true;
  proto = 17;
}

taken : (text : Text) → take_options (preload_args text) default_options ≡ ok (preload_options text)
unfolding take_options take_option preload_options
taken text = refl

valid : (text : Text) → validate (preload_options text) ≡ ok (preload_checked text)
unfolding validate choose_input parse_on_off_flag choose_proto text_eq preload_options
valid text = refl

module _ (env : Env) (dns : Dns) (text : Text) (port limit qclass : ℕ)
    (is_port : env.cast_u16 (codes "53") ≡ some port)
    (is_limit : env.cast_size (codes "30") ≡ some limit)
    (is_class : dns.rrclass (codes "IN") ≡ some qclass) where
  -- The repository before its preload.
  unfoldable pub repository : Repository
  unfolding queryperfpp.Repository.State.new
  repository = record (queryperfpp.Repository.State.new dns (open_stream text true)) {
    qclass = qclass;
  }

  abbrev unloaded : Dispatcher QueryContext Repository
  unloaded =
      queryperfpp.Dispatcher.Settings.new true
        (queryperfpp.Repository.State.new dns (open_stream text true))

  unfoldable pub configured_as : Repository → Dispatcher QueryContext Repository
  unfolding queryperfpp.Dispatcher.Settings.new
  configured_as r = record unloaded { server_port = port; test_duration = limit; repository = r }

  configure-preload :
      configure env dns (preload_options text) (preload_checked text) unloaded
      ≡ ((load dns repository).0, configured_as (load dns repository).1)
  unfolding configure with_cast when preload_options default_options set_server_address
      set_server_port set_test_duration set_default_query_class set_class set_dispatcher_dnssec
      set_dispatcher_edns set_dispatcher_protocol load_queries guard_repository on_repository
      set_query_class set_dnssec set_edns set_protocol queryperfpp.Dispatcher.Settings.new
      queryperfpp.Repository.State.new repository configured_as
  configure-preload = rw (is_port, is_limit, is_class) refl

  prepare-preload :
      (x : Result (Unit {0}))
      → (load dns repository).0 ≡ x
      → prepare env dns (preload_options text) (preload_checked text)
        ≡ elim x [ err e ↦ err e | ok _ ↦ ok (configured_as (load dns repository).1 ∷ []) ]
  unfolding prepare choose_threads casted is_stdin prepare_all prepare_one make_dispatcher
      configured preload_options default_options
  prepare-preload x e =
      ap
        (λ (y : Result (Unit {0}) × Dispatcher QueryContext Repository).
          elim (configured env dns y) [ err z ↦ err z | ok d ↦ ok (d ∷ []) ])
        configure-preload
      ∙ ap
          (λ (y : Result (Unit {0})).
            elim (configured env dns (y, configured_as (load dns repository).1)) [
              | err z ↦ err z
              | ok d ↦ ok (d ∷ [])
            ])
          e
      ∙ go x
    where
      go :
          (y : Result (Unit {0}))
          → elim (configured env dns (y, configured_as (load dns repository).1)) [
            | err z ↦ err z
            | ok d ↦ ok (d ∷ [])
          ]
            ≡ elim y [ err z ↦ err z | ok _ ↦ ok (configured_as (load dns repository).1 ∷ []) ]
      go (ok u) = refl
      go (err z) = refl

  module _ (fuel : ℕ) (to_wire : Message → Text) (parse_qid : Text → Option ℕ)
      (threads : ℕ → Thread) (starts : (threads 0).create_fails ≡ false) where
    abbrev run_all : Result (List (Worker QueryContext Repository)) → Exit
    run_all = run_threads env dns fuel to_wire parse_qid threads

    -- The one thread.
    abbrev pub the_worker : Worker QueryContext Repository
    the_worker = worker (threads 0) (configured_as (load dns repository).1)

    -- How `main` ends, by what `load` does.
    pub main-ends :
        (x : Result (Unit {0}))
        → (load dns repository).0 ≡ x
        → main env dns fuel to_wire parse_qid threads (preload_args text)
          ≡ elim x [ err z ↦ leave_with z | ok _ ↦ run_all (ok (the_worker ∷ [])) ]
    unfolding main check_options perform_test start_threads run_threads
    main-ends x e =
        ap
          (λ (y : Result Options).
            let ends : Exit = elim y [
              | err z ↦ failed z
              | ok o ↦ check_options env dns fuel to_wire parse_qid threads o
            ] in
            ends)
          (taken text)
        ∙ ap
            (λ (y : Result Checked).
              let ends : Exit = elim y [
                | err z ↦ failed z
                | ok c ↦
                    perform_test env dns fuel to_wire parse_qid threads (preload_options text) c
              ] in
              ends)
            (valid text)
        ∙ ap ends_with (prepare-preload x e)
        ∙ go x
      where
        one : Dispatcher QueryContext Repository
        one = configured_as (load dns repository).1

        ends_with : Result (List (Dispatcher QueryContext Repository)) → Exit
        ends_with y = elim y [ err z ↦ leave_with z | ok ds ↦ run_all (start_threads threads 0 ds) ]

        go :
            (y : Result (Unit {0}))
            → ends_with (elim y [ err z ↦ err z | ok _ ↦ ok (one ∷ []) ])
              ≡ elim y [ err z ↦ leave_with z | ok _ ↦ run_all (ok (the_worker ∷ [])) ]
        go (ok u) =
            ap
              (λ (b : Bool).
                run_all (if b then err thread_failure else ok (worker (threads 0) one ∷ [])))
              starts
        go (err z) = refl

    load-requests :
        blanks (lines text) < 1000
        → Loads dns repository (requests dns qclass text) (load dns repository)
    unfolding open_stream repository queryperfpp.Repository.State.new
    load-requests few = load-Loads dns repository refl (over-IsOpen text) few

    -- Without a request it fails.
    pub main-refused :
        blanks (lines text) < 1000
        → is_nil (requests dns qclass text) ≡ true
        → main env dns fuel to_wire parse_qid threads (preload_args text) ≡ failed empty_preload
    unfolding leave_with
    main-refused few none_asked = go (requests dns qclass text) (load-requests few) none_asked
      where
        go :
            (rs : List Request)
            → Loads dns repository rs (load dns repository)
            → is_nil rs ≡ true
            → main env dns fuel to_wire parse_qid threads (preload_args text) ≡ failed empty_preload
        go [] (e, _) n = main-ends (err empty_preload) e
        go (q ∷ rs) l n = cc
