-- ===== src/Dispatcher/Settings.antt =====
-- The constructors and the configuration methods of src/lib/dispatcher.cc.
use queryperfpp.Base.{
  ℕ, Bool, true, false, not, Option, none, some, [], Text, codes, after_run, external_repository,
  bad_class, Action, get, modify, throw, throw_if, ◌>>=◌, ◌>>◌,
}
use queryperfpp.Repository.Dns.{Dns}
use queryperfpp.Repository.State.{
  Repository, load, set_query_class, set_dnssec, set_edns, set_protocol,
}
use queryperfpp.Dispatcher.Types.{Method, Dispatcher}

-- `DEFAULT_WINDOW`, `DEFAULT_DURATION`, `DEFAULT_SERVER`, `DEFAULT_PORT`, `DEFAULT_QUERY_TIMEOUT`.
abbrev pub default_window : ℕ
default_window = 20

abbrev pub default_duration : ℕ
default_duration = 30

abbrev pub default_server : Text
default_server = codes "::1"

abbrev pub default_port : ℕ
default_port = 53

abbrev pub default_query_timeout : ℕ
default_query_timeout = 5

-- `initParams`, over a repository of the dispatcher's own or an external one.
unfoldable pub new : {C R : Type 0} → Bool → R → Dispatcher C R
new internal repository = record {
  manager = record { calls = []; outcomes = []; stopped = false };
  repository = repository;
  internal = internal;
  udp_socket = false;
  session_timer = false;
  server_address = default_server;
  server_port = default_port;
  test_duration = default_duration;
  query_timeout = default_query_timeout;
  keep_sending = true;
  window = default_window;
  qid = 0;
  outstanding = [];
  queries_sent = 0;
  queries_completed = 0;
  start_time = none;
  end_time = none;
}

-- `!start_time_.is_special()`
abbrev pub has_started : {C R : Type 0} → Dispatcher C R → Bool
has_started d = elim d.start_time [ none ↦ false | some _ ↦ true ]

module _ {C : Type 0} where
  -- The two guards of the methods that reach the repository, and the call behind them.
  unfoldable pub on_repository : Action Repository (Unit {0}) → Method C Repository
  on_repository m d =
      let (r, repository) = m d.repository in (r, record d { repository = repository })

  unfoldable pub guard_repository : Method C Repository
  guard_repository = do
    d ← get
    throw_if (has_started d) after_run
    throw_if (not d.internal) external_repository

  unfoldable pub load_queries : Dns → Method C Repository
  unfolding guard_repository on_repository
  load_queries dns = do guard_repository; on_repository (load dns)

  -- A bad class text is caught and thrown again as a `DispatcherError`.
  unfoldable pub set_class : Option ℕ → Method C Repository
  unfolding on_repository
  set_class none = throw bad_class
  set_class (some qclass) = on_repository (set_query_class qclass)

  unfoldable pub set_default_query_class : Dns → Text → Method C Repository
  unfolding guard_repository set_class
  set_default_query_class dns qclass_txt = do guard_repository; set_class (dns.rrclass qclass_txt)

  unfoldable pub set_dispatcher_dnssec : Bool → Method C Repository
  unfolding guard_repository on_repository
  set_dispatcher_dnssec on = do guard_repository; on_repository (set_dnssec on)

  unfoldable pub set_dispatcher_edns : Bool → Method C Repository
  unfolding guard_repository on_repository
  set_dispatcher_edns on = do guard_repository; on_repository (set_edns on)

  unfoldable pub set_dispatcher_protocol : ℕ → Method C Repository
  unfolding guard_repository on_repository
  set_dispatcher_protocol proto = do guard_repository; on_repository (set_protocol proto)

module _ {C R : Type 0} where
  unfoldable pub set_server_address : Text → Method C R
  set_server_address address = do
    d ← get
    throw_if (has_started d) after_run
    modify (λ (e : Dispatcher C R). record e { server_address = address })

  unfoldable pub set_server_port : ℕ → Method C R
  set_server_port port = do
    d ← get
    throw_if (has_started d) after_run
    modify (λ (e : Dispatcher C R). record e { server_port = port })

  unfoldable pub set_test_duration : ℕ → Method C R
  set_test_duration duration = do
    d ← get
    throw_if (has_started d) after_run
    modify (λ (e : Dispatcher C R). record e { test_duration = duration })
