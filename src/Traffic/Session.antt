-- ===== src/Traffic/Session.antt =====
-- The queries on the wire in a whole session of src/lib/dispatcher.cc.
use queryperfpp.Base.{
  undefined, throw, Gives, bind-Gives, ℕ, ◌+◌, ◌<◌, refl, Bool, true, false, Bool-cases, inl, inr,
  not, Option, none, some, [], ◌∷◌, Text, is_nil, arith, if_both, pure, ◌>>◌,
}
use queryperfpp.Repository.State.{Repository}
use queryperfpp.Context.{QueryContext}
use queryperfpp.Dispatcher.Types.{Method, Source, QueryEvent}
use queryperfpp.Dispatcher.Query.{u64_mod, record_call}
use queryperfpp.Dispatcher.Loop.{
  null_tcp_callback, tcp_null, Split, find_if, is_event, owns_socket, Delivery, response,
  tcp_response, query_timeout, session_timeout, deliver, on_event, parsed, response_callback,
  response_tcp_callback, query_timer_callback, session_timer_callback, parse_tcp, clear_socket_of,
  restart_query,
}
use queryperfpp.Dispatcher.Invariant.Callbacks.{
  socket_cleared, clear_socket_of-ok, clear_socket_of-err,
}
use queryperfpp.Traffic.{Supply}
use queryperfpp.Traffic.Log.{Session, source, Log, Logged, Log-same, restart_query-Log}

module _ (supply : Supply) where
  open supply use {to_wire, edns, wanted}

  abbrev queries : Source QueryContext Repository
  queries = source supply

  module _ (n : ℕ) (small : n + 1 < u64_mod) where
    -- Behind a part that sends nothing.
    after_part :
        (m k : Method QueryContext Repository) (d : Session)
        → Gives (λ _. Log supply n) (m d)
        → ((e : Session) → Log supply n e → Gives (Logged supply (n + 1)) (k e))
        → Gives (Logged supply (n + 1)) ((m >> k) d)
    after_part m k d p h =
        bind-Gives (λ _. Log supply n) (Logged supply (n + 1)) m (λ _. k) d p λ _. h

    socket_cleared-Log :
        (s : Split (QueryEvent QueryContext)) (d : Session)
        → Log supply n d
        → Log supply n (socket_cleared s d)
    unfolding socket_cleared record_call
    socket_cleared-Log s d log = Log-same supply n d _ refl refl refl refl log

    clear_socket_of-Log :
        (s : Split (QueryEvent QueryContext)) (d : Session)
        → Log supply n d
        → Gives (λ _. Log supply n) (clear_socket_of s d)
    clear_socket_of-Log s d log = elim (Bool-cases s.found.tcp_sock) [
      | inl e ↦ rw (clear_socket_of-ok s d e) (socket_cleared-Log s d log)
      | inr e ↦ rw (clear_socket_of-err s d e) tt
    ]

    parse_tcp-Log :
        (parse_qid : Text → Option ℕ) (bytes : Text) (d : Session)
        → Log supply n d
        → Gives (λ _. Log supply n) (parse_tcp parse_qid bytes d)
    unfolding parse_tcp parsed
    parse_tcp-Log parse_qid [] d log = log
    parse_tcp-Log parse_qid (c ∷ t) d log = go (parse_qid (c ∷ t))
      where
        go : (o : Option ℕ) → Gives (λ _. Log supply n) (parsed o (λ _. pure tt) d)
        go none = tt
        go (some qid) = log

    restarts :
        (qid : ℕ) (answered : Bool) (d : Session)
        → Log supply n d
        → Gives (Logged supply (n + 1)) (restart_query queries qid answered d)
    restarts qid answered d = restart_query-Log supply n qid answered d small

    response-Log :
        (parse_qid : Text → Option ℕ) (bytes : Text) (d : Session)
        → Log supply n d
        → Gives (Logged supply (n + 1)) (response_callback queries parse_qid bytes d)
    unfolding response_callback parsed
    response-Log parse_qid bytes d log = go (parse_qid bytes)
      where
        go :
            (o : Option ℕ)
            → Gives (Logged supply (n + 1)) (parsed o (λ qid. restart_query queries qid true) d)
        go none = tt
        go (some qid) = restarts qid true d log

    tcp-Log :
        (parse_qid : Text → Option ℕ) (bytes : Text) (s : Split (QueryEvent QueryContext))
        (d : Session)
        → Log supply n d
        → Gives (Logged supply (n + 1)) (response_tcp_callback queries parse_qid bytes s d)
    unfolding response_tcp_callback
    tcp-Log parse_qid bytes s d log =
        let restart = restart_query queries s.found.qid (not (is_nil bytes)) in
        after_part (clear_socket_of s) (parse_tcp parse_qid bytes >> restart) d
          (clear_socket_of-Log s d log)
          λ e log'.
            after_part (parse_tcp parse_qid bytes) restart e (parse_tcp-Log parse_qid bytes e log')
              λ f log''. restarts s.found.qid (not (is_nil bytes)) f log''

    null_tcp-Log :
        (s : Split (QueryEvent QueryContext)) (d : Session)
        → Log supply n d
        → Gives (Logged supply (n + 1)) (null_tcp_callback s d)
    unfolding null_tcp_callback
    null_tcp-Log s d log =
        after_part (clear_socket_of s) (throw undefined) d (clear_socket_of-Log s d log) λ _ _. tt

    timer-Log :
        (s : Split (QueryEvent QueryContext)) (d : Session)
        → Log supply n d
        → Gives (Logged supply (n + 1)) (query_timer_callback queries s d)
    unfolding query_timer_callback
    timer-Log s d log =
        if_both (Gives (Logged supply (n + 1))) s.found.tcp_sock
          (λ _.
            after_part (clear_socket_of s) (restart_query queries s.found.qid false) d
              (clear_socket_of-Log s d log) λ e log'. restarts s.found.qid false e log')
          (λ _. restarts s.found.qid false d log)

    on_event-Log :
        (k : Split (QueryEvent QueryContext) → Method QueryContext Repository)
        (o : Option (Split (QueryEvent QueryContext))) (d : Session)
        → Log supply n d
        → ((s : Split (QueryEvent QueryContext)) → Gives (Logged supply (n + 1)) (k s d))
        → Gives (Logged supply (n + 1)) (on_event k o d)
    unfolding on_event
    on_event-Log k none d log h = (n, omega arith, log)
    on_event-Log k (some s) d log h = h s

    pub deliver-Log :
        (parse_qid : Text → Option ℕ) (x : Delivery) (d : Session)
        → Log supply n d
        → Gives (Logged supply (n + 1)) (deliver queries parse_qid x d)
    unfolding deliver session_timer_callback
    deliver-Log parse_qid (response bytes) d log = response-Log parse_qid bytes d log
    deliver-Log parse_qid (tcp_response ident bytes) d log =
        on_event-Log (response_tcp_callback queries parse_qid bytes)
          (find_if (owns_socket ident) d.outstanding) d log λ s. tcp-Log parse_qid bytes s d log
    deliver-Log parse_qid (tcp_null ident) d log =
        on_event-Log null_tcp_callback (find_if (owns_socket ident) d.outstanding) d log
          λ s. null_tcp-Log s d log
    deliver-Log parse_qid (query_timeout ident) d log =
        on_event-Log (query_timer_callback queries) (find_if (is_event ident) d.outstanding) d log
          λ s. timer-Log s d log
    deliver-Log parse_qid session_timeout d log =
        (n, omega arith, Log-same supply n d _ refl refl refl refl log)
