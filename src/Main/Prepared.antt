-- ===== src/Main/Prepared.antt =====
-- What the options of src/bin/queryperfpp/queryperfpp.cc come to in a dispatcher.
use queryperfpp.Base.{
  Text, ◌≡◌, true, false, Option, none, some, arith, Option-cases, Bool-cases, inl, inr, is_nil,
  Result, ok, err, ◌>>◌,
}
use queryperfpp.Stream.{Stream, open_stream}
use queryperfpp.Repository.Dns.{Dns}
use queryperfpp.Repository.State.{
  Repository, load, load_loop, load_or, read_request, request_param, push_param, finish_load,
  set_query_class, set_dnssec, set_edns, set_protocol,
}
use queryperfpp.Dispatcher.Types.{
  Dispatcher, Method, get_server_address, get_server_port, get_test_duration,
}
use queryperfpp.Dispatcher.Settings.{
  default_window, load_queries, set_default_query_class, set_dispatcher_dnssec, set_dispatcher_edns,
  set_dispatcher_protocol, set_server_address, set_server_port, set_test_duration, on_repository,
  guard_repository, set_class,
}
use queryperfpp.Dispatcher.Invariant.Session.{IsFresh}
use queryperfpp.Repository.Unchanged.{load-SameSettings, load-filled}
use queryperfpp.Main.Options.{data_file, query_text, Input, Options, Checked}
use queryperfpp.Main.Prepare.{
  owned, is_stdin, make_dispatcher, prepare_one, configured, configure, Env, with_cast, when,
}

-- A dispatcher as the options ask for: fresh, with their server, their limit, and the settings of its
-- repository.
pub record IsPrepared (env : Env) (dns : Dns) {C : Type 0} (o : Options) (c : Checked)
    (d : Dispatcher C Repository) : Type 0 where
  pub fresh : IsFresh d
  pub window : d.window ≡ default_window
  pub address : get_server_address d ≡ o.server_address
  pub port : env.cast_u16 o.server_port_str ≡ some (get_server_port d)
  pub duration : env.cast_size o.time_limit_str ≡ some (get_test_duration d)
  pub qclass : dns.rrclass o.qclass_txt ≡ some d.repository.qclass
  pub dnssec : d.repository.use_dnssec ≡ c.dnssec_flag
  pub edns : d.repository.use_edns ≡ c.edns_flag
  pub proto : d.repository.proto ≡ c.proto
  pub loaded : o.preload ≡ true → is_nil d.repository.params ≡ false

-- A dispatcher that can be configured.
record IsReady {C : Type 0} (d : Dispatcher C Repository) : Type 0 where
  fresh : IsFresh d
  window : d.window ≡ default_window
  unstarted : d.start_time ≡ none
  internal : d.internal ≡ true
  unloaded : is_nil d.repository.params ≡ true

-- What holds behind a method, if it returns.
abbrev pub Gives :
    {C : Type 0}
    → (Dispatcher C Repository → Type 0)
    → Result (Unit {0}) × Dispatcher C Repository
    → Type 0
Gives P (ok _, d) = P d
Gives P (err _, d) = Unit

module _ (C : Type 0) (env : Env) (dns : Dns) (o : Options) (c : Checked) where
  result-Gives :
      (P Q : Dispatcher C Repository → Type 0) (r : Result (Unit {0}))
      (e d : Dispatcher C Repository) (k : Method C Repository)
      → Gives P (r, e)
      → ((f : Dispatcher C Repository) → P f → Gives Q (k f))
      → Gives Q (◌>>◌ (λ (_ : Dispatcher C Repository). (r, e)) k d)
  result-Gives P Q (ok _) e d k p h = h e p
  result-Gives P Q (err _) e d k p h = tt

  then-Gives :
      (P Q R : Dispatcher C Repository → Type 0) (m k : Method C Repository)
      → ((f : Dispatcher C Repository) → P f → Gives Q (m f))
      → ((f : Dispatcher C Repository) → Q f → Gives R (k f))
      → (d : Dispatcher C Repository) → P d
      → Gives R ((m >> k) d)
  then-Gives P Q R m k g h d p = result-Gives Q R (m d).0 (m d).1 d k (g d p) h

  -- The settings so far, one by one.
  abbrev WithAddress : Dispatcher C Repository → Type 0
  WithAddress d = IsReady d × (d.server_address ≡ o.server_address)

  abbrev WithPort : Dispatcher C Repository → Type 0
  WithPort d = WithAddress d × (env.cast_u16 o.server_port_str ≡ some d.server_port)

  abbrev WithDuration : Dispatcher C Repository → Type 0
  WithDuration d = WithPort d × (env.cast_size o.time_limit_str ≡ some d.test_duration)

  abbrev WithClass : Dispatcher C Repository → Type 0
  WithClass d = WithDuration d × (dns.rrclass o.qclass_txt ≡ some d.repository.qclass)

  abbrev WithDnssec : Dispatcher C Repository → Type 0
  WithDnssec d = WithClass d × (d.repository.use_dnssec ≡ c.dnssec_flag)

  abbrev WithEdns : Dispatcher C Repository → Type 0
  WithEdns d = WithDnssec d × (d.repository.use_edns ≡ c.edns_flag)

  abbrev WithProto : Dispatcher C Repository → Type 0
  WithProto d = WithEdns d × (d.repository.proto ≡ c.proto)

  address-Gives :
      (d : Dispatcher C Repository)
      → IsReady d
      → Gives WithAddress (set_server_address o.server_address d)
  unfolding set_server_address
  address-Gives d h = ground arith

  port-Gives :
      (d : Dispatcher C Repository)
      → WithAddress d
      → Gives WithPort (with_cast env dns (env.cast_u16 o.server_port_str) set_server_port d)
  unfolding set_server_port with_cast
  port-Gives d h = elim (Option-cases (env.cast_u16 o.server_port_str)) [
    | inl e ↦ rw e tt
    | inr (n, e) ↦ rw e (ground arith)
  ]

  duration-Gives :
      (d : Dispatcher C Repository)
      → WithPort d
      → Gives WithDuration (with_cast env dns (env.cast_size o.time_limit_str) set_test_duration d)
  unfolding set_test_duration with_cast
  duration-Gives d h = elim (Option-cases (env.cast_size o.time_limit_str)) [
    | inl e ↦ rw e tt
    | inr (n, e) ↦ rw e (ground arith)
  ]

  class-Gives :
      (d : Dispatcher C Repository)
      → WithDuration d
      → Gives WithClass (set_default_query_class dns o.qclass_txt d)
  unfolding set_default_query_class set_class guard_repository on_repository set_query_class
  class-Gives d h = elim (Option-cases (dns.rrclass o.qclass_txt)) [
    | inl e ↦ rw e (ground arith)
    | inr (n, e) ↦ rw e (ground arith)
  ]

  dnssec-Gives :
      (d : Dispatcher C Repository)
      → WithClass d
      → Gives WithDnssec (set_dispatcher_dnssec c.dnssec_flag d)
  unfolding set_dispatcher_dnssec guard_repository on_repository set_dnssec
  dnssec-Gives d h = ground arith

  edns-Gives :
      (d : Dispatcher C Repository)
      → WithDnssec d
      → Gives WithEdns (set_dispatcher_edns c.edns_flag d)
  unfolding set_dispatcher_edns guard_repository on_repository set_edns
  edns-Gives d h = ground arith

  proto-Gives :
      (d : Dispatcher C Repository)
      → WithEdns d
      → Gives WithProto (set_dispatcher_protocol c.proto d)
  unfolding set_dispatcher_protocol guard_repository on_repository set_protocol
  proto-Gives d h = ground arith

  preload-Gives :
      (d : Dispatcher C Repository)
      → WithProto d
      → Gives (IsPrepared env dns o c) (when env dns o.preload (load_queries dns) d)
  unfolding when load_queries guard_repository on_repository
  preload-Gives d h = ground (
    arith,
    load-SameSettings dns d.repository,
    load-filled dns d.repository h.0.0.0.0.0.0.0.unloaded,
  )

  configure-Gives :
      (d : Dispatcher C Repository)
      → IsReady d
      → Gives (IsPrepared env dns o c) (configure env dns o c d)
  unfolding configure
  configure-Gives =
      then-Gives IsReady WithAddress (IsPrepared env dns o c) (set_server_address o.server_address)
        _ address-Gives
        (then-Gives WithAddress WithPort (IsPrepared env dns o c)
          (with_cast env dns (env.cast_u16 o.server_port_str) set_server_port) _ port-Gives
          (then-Gives WithPort WithDuration (IsPrepared env dns o c)
            (with_cast env dns (env.cast_size o.time_limit_str) set_test_duration) _ duration-Gives
            (then-Gives WithDuration WithClass (IsPrepared env dns o c)
              (set_default_query_class dns o.qclass_txt) _ class-Gives
              (then-Gives WithClass WithDnssec (IsPrepared env dns o c)
                (set_dispatcher_dnssec c.dnssec_flag) _ dnssec-Gives
                (then-Gives WithDnssec WithEdns (IsPrepared env dns o c)
                  (set_dispatcher_edns c.edns_flag) _ edns-Gives
                  (then-Gives WithEdns WithProto (IsPrepared env dns o c)
                    (set_dispatcher_protocol c.proto) (when env dns o.preload (load_queries dns))
                    proto-Gives preload-Gives))))))

  -- What the loop over the threads gets.
  abbrev pub Prepares : Result (Dispatcher C Repository) → Type 0
  Prepares (ok d) = IsPrepared env dns o c d
  Prepares (err e) = Unit

  new-IsReady :
      (input : Stream)
      → IsReady {C = C}
          (queryperfpp.Dispatcher.Settings.new true (queryperfpp.Repository.State.new dns input))
  unfolding queryperfpp.Dispatcher.Settings.new queryperfpp.Repository.State.new
  new-IsReady input = ground arith

  configured-Prepares :
      (d : Dispatcher C Repository)
      → IsReady d
      → Prepares (configured env dns (configure env dns o c d))
  unfolding configured
  configured-Prepares d h =
      go (configure env dns o c d).0 (configure env dns o c d).1 (configure-Gives d h)
    where
      go :
          (r : Result (Unit {0})) (e : Dispatcher C Repository)
          → Gives (IsPrepared env dns o c) (r, e)
          → Prepares (configured env dns (r, e))
      go (ok _) e g = g
      go (err _) e g = tt

  -- A dispatcher that is prepared from checked options is fresh and has the server, the limit, the
  -- class, the flags and the protocol of the options; if they ask for a preload, it has queries.
  pub prepare_one-Prepares : Prepares (prepare_one env dns {C = C} o c)
  unfolding prepare_one owned make_dispatcher queryperfpp.Repository.State.new_file
  prepare_one-Prepares = go c.input
    where
      opened :
          (text : Option Text)
          → Prepares
              (elim (owned env dns {C = C} (queryperfpp.Repository.State.new_file dns text)) [
                | err e ↦ err e
                | ok d ↦ configured env dns (configure env dns o c d)
              ])
      opened none = tt
      opened (some text) = configured-Prepares _ (new-IsReady (open_stream text true))

      go :
          (input : Input)
          → Prepares (elim (make_dispatcher env dns {C = C} input) [
            | err e ↦ err e
            | ok d ↦ configured env dns (configure env dns o c d)
          ])
      go (query_text text) = configured-Prepares _ (new-IsReady (open_stream text true))
      go (data_file file) = elim (Bool-cases (is_stdin (data_file file))) [
        | inl e ↦ rw e (configured-Prepares _ (new-IsReady env.stdin))
        | inr e ↦ rw e (opened (env.files file))
      ]
