-- ===== src/Dispatcher/Refusals.antt =====
-- When the configuration methods of src/lib/dispatcher.cc refuse.
use queryperfpp.Base.{
  ◌⊎◌, ℕ, ◌≡◌, Bool, true, false, Text, is_nil, arith, Result, ok, err, after_run,
}
use queryperfpp.Repository.Dns.{Dns}
use queryperfpp.Repository.State.{
  Repository, load, set_query_class, set_dnssec, set_edns, set_protocol,
}
use queryperfpp.Dispatcher.Types.{Method, Dispatcher}
use queryperfpp.Dispatcher.Settings.{
  has_started, guard_repository, on_repository, set_class, load_queries, set_default_query_class,
  set_dispatcher_dnssec, set_dispatcher_edns, set_dispatcher_protocol, set_server_address,
  set_server_port, set_test_duration,
}

-- A call of one of the methods. Those of the first kind reach the repository.
pub data RepositoryCall : Type 0 where
  calls_load : RepositoryCall
  calls_class : Text → RepositoryCall
  calls_dnssec calls_edns : Bool → RepositoryCall
  calls_protocol : ℕ → RepositoryCall

pub data ServerCall : Type 0 where
  calls_address : Text → ServerCall
  calls_port calls_duration : ℕ → ServerCall

module _ {C : Type 0} (dns : Dns) where
  unfoldable pub call_repository : RepositoryCall → Method C Repository
  call_repository calls_load = load_queries dns
  call_repository (calls_class text) = set_default_query_class dns text
  call_repository (calls_dnssec on) = set_dispatcher_dnssec on
  call_repository (calls_edns on) = set_dispatcher_edns on
  call_repository (calls_protocol proto) = set_dispatcher_protocol proto

  unfoldable pub call_server : ServerCall → Method C Repository
  call_server (calls_address address) = set_server_address address
  call_server (calls_port port) = set_server_port port
  call_server (calls_duration duration) = set_test_duration duration

  -- Once a session has started, the server and the duration stay: each of the methods throws.
  pub call_server-refused :
      (x : ServerCall) (d : Dispatcher C Repository)
      → has_started d ≡ true
      → call_server x d ≡ (err after_run, d)
  unfolding call_server set_server_address set_server_port set_test_duration
  call_server-refused (calls_address address) d h = ground arith
  call_server-refused (calls_port port) d h = ground arith
  call_server-refused (calls_duration duration) d h = ground arith

  -- A method that throws and leaves the dispatcher as it was.
  abbrev pub Refuses :
      Dispatcher C Repository → Result (Unit {0}) × Dispatcher C Repository → Type 0
  Refuses d (ok _, e) = ⊥
  Refuses d (err x, e) = e ≡ d

  -- A method that reaches the repository throws and changes nothing if the session has started, if
  -- the repository is not the dispatcher's own, or if queries have been loaded.
  pub call_repository-Refuses :
      (x : RepositoryCall) (d : Dispatcher C Repository)
      → (has_started d ≡ true) ⊎ ((d.internal ≡ false) ⊎ (is_nil d.repository.params ≡ false))
      → Refuses d (call_repository x d)
  unfolding call_repository load_queries set_default_query_class set_dispatcher_dnssec
      set_dispatcher_edns set_dispatcher_protocol guard_repository on_repository set_class load
      set_query_class set_dnssec set_edns set_protocol
  call_repository-Refuses calls_load d h = ground arith
  call_repository-Refuses (calls_class text) d h = ground arith
  call_repository-Refuses (calls_dnssec on) d h = ground arith
  call_repository-Refuses (calls_edns on) d h = ground arith
  call_repository-Refuses (calls_protocol proto) d h = ground arith
