-- ===== src/Main/Prepare.antt =====
-- The dispatchers of src/bin/queryperfpp/queryperfpp.cc: the first part of the `try` block of `main`.
use queryperfpp.Base.{
  ℕ, zero, suc, ◌&&◌, ltb, Bool, true, false, Option, none, some, List, [], ◌∷◌, if◌then◌else◌,
  Text, codes, text_eq, bad_cast, stdin_threads, Result, ok, err, throw, pure, ◌>>◌,
}
use queryperfpp.Stream.{Stream, open_stream}
use queryperfpp.Repository.Dns.{Dns}
use queryperfpp.Repository.State.{Repository}
use queryperfpp.Dispatcher.Types.{Method, Dispatcher}
use queryperfpp.Dispatcher.Settings.{
  load_queries, set_default_query_class, set_dispatcher_dnssec, set_dispatcher_edns,
  set_dispatcher_protocol, set_server_address, set_server_port, set_test_duration,
}
use queryperfpp.Main.Options.{Options, Input, data_file, query_text, Checked}

-- What `main` takes from outside: the files, by what they hold; the standard input; and boost's
-- `lexical_cast<uint16_t>` and `lexical_cast<size_t>`, which throw (`none`) on another text.
pub record Env : Type 0 where
  pub files : Text → Option Text
  pub stdin : Stream
  pub cast_u16 : Text → Option ℕ
  pub cast_size : Text → Option ℕ

unfoldable pub casted : Option ℕ → Result ℕ
casted none = err bad_cast
casted (some n) = ok n

unfoldable pub choose_threads : Env → Option Text → Result ℕ
unfolding casted
choose_threads env none = ok 1
choose_threads env (some text) = casted (env.cast_size text)

-- The check that the standard input has one reader.
unfoldable pub is_stdin : Input → Bool
is_stdin (data_file file) = text_eq file (codes "-")
is_stdin (query_text text) = false

module _ (env : Env) (dns : Dns) {C : Type 0} where
  -- A dispatcher over a repository of its own.
  unfoldable pub owned : Result Repository → Result (Dispatcher C Repository)
  owned (ok repository) = ok (queryperfpp.Dispatcher.Settings.new true repository)
  owned (err e) = err e

  -- `Dispatcher(data_file)` and `Dispatcher(istream&)`.
  unfoldable pub make_dispatcher : Input → Result (Dispatcher C Repository)
  unfolding is_stdin owned
  make_dispatcher (query_text text) = ok (
      queryperfpp.Dispatcher.Settings.new true
        (queryperfpp.Repository.State.new dns (open_stream text true)))
  make_dispatcher (data_file file) =
      if is_stdin (data_file file)
      then ok (
          queryperfpp.Dispatcher.Settings.new true (queryperfpp.Repository.State.new dns env.stdin))
      else owned (queryperfpp.Repository.State.new_file dns (env.files file))

  unfoldable pub with_cast : Option ℕ → (ℕ → Method C Repository) → Method C Repository
  with_cast none k = throw bad_cast
  with_cast (some n) k = k n

  unfoldable pub when : Bool → Method C Repository → Method C Repository
  when true m = m
  when false m = pure tt

  -- The configuration of one dispatcher.
  unfoldable pub configure : Options → Checked → Method C Repository
  unfolding with_cast when
  configure o c = do
    set_server_address o.server_address
    with_cast (env.cast_u16 o.server_port_str) set_server_port
    with_cast (env.cast_size o.time_limit_str) set_test_duration
    set_default_query_class dns o.qclass_txt
    set_dispatcher_dnssec c.dnssec_flag
    set_dispatcher_edns c.edns_flag
    set_dispatcher_protocol c.proto
    when o.preload (load_queries dns)

  unfoldable pub configured :
      Result (Unit {0}) × Dispatcher C Repository → Result (Dispatcher C Repository)
  configured (ok _, d) = ok d
  configured (err e, d) = err e

  -- One turn of the loop over the threads.
  unfoldable pub prepare_one : Options → Checked → Result (Dispatcher C Repository)
  unfolding configured make_dispatcher configure
  prepare_one o c = elim (make_dispatcher c.input) [
    | err e ↦ err e
    | ok d ↦ configured (configure o c d)
  ]

  unfoldable pub prepare_all : ℕ → Options → Checked → Result (List (Dispatcher C Repository))
  unfolding prepare_one
  prepare_all zero o c = ok []
  prepare_all (suc n) o c = elim (prepare_one o c) [
    | err e ↦ err e
    | ok d ↦ elim (prepare_all n o c) [ err e ↦ err e | ok ds ↦ ok (d ∷ ds) ]
  ]

  unfoldable pub prepare : Options → Checked → Result (List (Dispatcher C Repository))
  unfolding choose_threads is_stdin prepare_all
  prepare o c = elim (choose_threads env o.num_threads_txt) [
    | err e ↦ err e
    | ok num_threads ↦
        if ltb 1 num_threads && is_stdin c.input
        then err stdin_threads
        else prepare_all num_threads o c
  ]
