-- ===== src/Dispatcher/Query.antt =====
-- One query of src/lib/dispatcher.cc: `QueryEvent::start`, its TCP socket, and `sendQuery`.
pub mod Effect
use queryperfpp.Base.{
  ℕ, ◌+◌, ◌%◌, Bool, true, false, not, List, [], ◌∷◌, Text, ◌==◌, if◌then◌else◌, Error,
  socket_failure, timer_failure, assertion, ok, err, Action, get, modify, throw_if, ◌>>=◌, ◌>>◌,
}
use queryperfpp.Context.{QuerySpec}
use queryperfpp.Repository.State.{ipproto_udp}
use queryperfpp.Dispatcher.Types.{
  Method, Source, Call, create_tcp, send_udp, send_tcp, delete_tcp, start_query_timer, stop,
  Dispatcher, Focus,
}

-- `qid_t` has 16 bits, `size_t` 64.
abbrev pub u16_mod : ℕ
u16_mod = 65536

abbrev pub u64_mod : ℕ
u64_mod = 18446744073709551616

-- A call of the manager: it throws, or is recorded.
abbrev pub next_outcome : List Bool → Bool
next_outcome [] = false
next_outcome (b ∷ bs) = b

abbrev pub later_outcomes : List Bool → List Bool
later_outcomes [] = []
later_outcomes (b ∷ bs) = bs

module _ {C R : Type 0} where
  unfoldable pub manage : Call → Error → Method C R
  manage call e d =
      let m = record (d.manager) { outcomes = later_outcomes d.manager.outcomes } in
      if next_outcome d.manager.outcomes
      then (err e, record d { manager = m })
      else (ok tt, record d { manager = record m { calls = call ∷ m.calls } })

  -- A destructor, which does not throw.
  unfoldable pub record_call : Call → Dispatcher C R → Dispatcher C R
  record_call call d = record d { manager = record (d.manager) { calls = call ∷ d.manager.calls } }

  unfoldable pub stop_manager : Dispatcher C R → Dispatcher C R
  stop_manager d = record d {
    manager = record (d.manager) { calls = stop ∷ d.manager.calls; stopped = true };
  }

  -- An action on the dispatcher, with an event in the hand.
  unfoldable pub on_disp : {A : Type 0} → Action (Dispatcher C R) A → Action (Focus C R) A
  on_disp m f = let (r, d) = m f.disp in (r, record f { disp = d })

  -- `ctx_->start(qid_)`
  unfoldable pub start_context : Source C R → ℕ → Action (Focus C R) QuerySpec
  start_context source qid f =
      let (r, (c, repo)) = source.start qid (f.event.ctx, f.disp.repository) in
      (
        r,
        record {
          event = record (f.event) { ctx = c };
          disp = record (f.disp) { repository = repo };
        },
      )

  -- `QueryEvent::start`: the new id, the timer, then the context's next query.
  unfoldable pub start_event : Source C R → ℕ → Action (Focus C R) QuerySpec
  unfolding manage on_disp start_context
  start_event source qid = do
    modify (λ (f : Focus C R). record f { event = record (f.event) { qid = qid } })
    f ← get
    on_disp (manage (start_query_timer f.event.ident f.disp.query_timeout) timer_failure)
    start_context source qid

  -- `setTCPSocket`
  unfoldable pub set_tcp_socket : Action (Focus C R) (Unit {0})
  set_tcp_socket = do
    f ← get
    throw_if f.event.tcp_sock assertion
    modify (λ (g : Focus C R). record g { event = record (g.event) { tcp_sock = true } })

  -- `clearTCPSocket`, whose `delete` tells the manager.
  unfoldable pub clear_tcp_socket : Action (Focus C R) (Unit {0})
  unfolding record_call
  clear_tcp_socket = do
    f ← get
    throw_if (not f.event.tcp_sock) assertion
    modify (λ (g : Focus C R). record {
      event = record (g.event) { tcp_sock = false };
      disp = record_call (delete_tcp g.event.ident) g.disp;
    })

  -- The TCP branch of `sendQuery`. `getTCPBuf` allocates the buffer once.
  unfoldable pub send_over_tcp : Text → Action (Focus C R) (Unit {0})
  unfolding manage on_disp set_tcp_socket
  send_over_tcp query = do
    modify (λ (f : Focus C R). record f { event = record (f.event) { tcp_rcvbuf = true } })
    f ← get
    on_disp
        (manage (create_tcp f.event.ident f.disp.server_address f.disp.server_port) socket_failure)
    set_tcp_socket
    on_disp (manage (send_tcp f.event.ident query) socket_failure)

  unfoldable pub count_sent : Dispatcher C R → Dispatcher C R
  count_sent d = record d {
    queries_sent = (d.queries_sent + 1) % u64_mod;
    qid = (d.qid + 1) % u16_mod;
  }

  -- `sendQuery`
  unfoldable pub send_spec : QuerySpec → Action (Focus C R) (Unit {0})
  unfolding manage on_disp send_over_tcp
  send_spec spec =
      if spec.proto == ipproto_udp
      then on_disp (manage (send_udp spec.query) socket_failure)
      else send_over_tcp spec.query

  unfoldable pub send_query : QuerySpec → Action (Focus C R) (Unit {0})
  unfolding send_spec count_sent
  send_query spec = do
    send_spec spec
    modify (λ (f : Focus C R). record f { disp = count_sent f.disp })

  -- `sendQuery(*qev, qev->start(qid_, query_timeout_))`
  unfoldable pub dispatch_query : Source C R → Action (Focus C R) (Unit {0})
  unfolding start_event send_query
  dispatch_query source = do f ← get; spec ← start_event source f.disp.qid; send_query spec
