-- ===== src/Dispatcher/Query/Effect.antt =====
-- What one call of `dispatch_query` changes: `QueryEvent::start` and `sendQuery` of
-- src/lib/dispatcher.cc.
use queryperfpp.Base.{
  Text, inl, inr, Bool-cases, ◌==◌, modify, ◌>>◌, timer_failure, assertion, socket_failure, ℕ, ◌∙◌,
  Bool, true, false, Error, Action, throw_if, ◌>>=◌, ◌+◌, ◌%◌, ◌≡◌, Result, ok, err, arith,
}
use queryperfpp.Context.{QuerySpec}
use queryperfpp.Repository.State.{ipproto_udp}
use queryperfpp.Dispatcher.Types.{start_query_timer, create_tcp, send_tcp, Call, Source, Focus}
use queryperfpp.Dispatcher.Query.{
  count_sent, set_tcp_socket, send_over_tcp, send_spec, send_query, manage, on_disp, start_context,
  start_event, u16_mod, u64_mod, dispatch_query,
}

module _ {C R : Type 0} where
  -- What sending leaves alone.
  pub record Keeps (f g : Focus C R) : Type 0 where
    pub ident : g.event.ident ≡ f.event.ident
    pub outstanding : g.disp.outstanding ≡ f.disp.outstanding
    pub completed : g.disp.queries_completed ≡ f.disp.queries_completed
    pub keep_sending : g.disp.keep_sending ≡ f.disp.keep_sending
    pub window : g.disp.window ≡ f.disp.window
    pub stopped : g.disp.manager.stopped ≡ f.disp.manager.stopped
    pub started : g.disp.start_time ≡ f.disp.start_time
    pub address : g.disp.server_address ≡ f.disp.server_address
    pub port : g.disp.server_port ≡ f.disp.server_port
    pub duration : g.disp.test_duration ≡ f.disp.test_duration
    pub timeout : g.disp.query_timeout ≡ f.disp.query_timeout

  Keeps-refl : (f : Focus C R) → Keeps f f
  Keeps-refl f = ground arith

  Keeps-trans : {f g h : Focus C R} → Keeps f g → Keeps g h → Keeps f h
  Keeps-trans p q = record {
    ident = q.ident ∙ p.ident;
    outstanding = q.outstanding ∙ p.outstanding;
    completed = q.completed ∙ p.completed;
    keep_sending = q.keep_sending ∙ p.keep_sending;
    window = q.window ∙ p.window;
    stopped = q.stopped ∙ p.stopped;
    started = q.started ∙ p.started;
    address = q.address ∙ p.address;
    port = q.port ∙ p.port;
    duration = q.duration ∙ p.duration;
    timeout = q.timeout ∙ p.timeout;
  }

  abbrev pub Preserves : {A : Type 0} → Action (Focus C R) A → Type 0
  Preserves m = (f : Focus C R) → Keeps f (m f).1

  bind_result :
      {A B : Type 0} {f : Focus C R} (g : Focus C R) (r : Result A) (k : A → Action (Focus C R) B)
      → Keeps f g
      → ((a : A) → Preserves (k a))
      → Keeps f (◌>>=◌ (λ (h : Focus C R). (r, h)) k g).1
  bind_result g (ok a) k p q = Keeps-trans p (q a g)
  bind_result g (err e) k p q = p

  bind-Preserves :
      {A B : Type 0} (m : Action (Focus C R) A) (k : A → Action (Focus C R) B)
      → Preserves m
      → ((a : A) → Preserves (k a))
      → Preserves (m >>= k)
  bind-Preserves m k p q f = bind_result (m f).1 (m f).0 k (p f) q

  throw_if-Preserves : (b : Bool) (e : Error) → Preserves (throw_if b e)
  throw_if-Preserves true e f = Keeps-refl f
  throw_if-Preserves false e f = Keeps-refl f

  manage-Preserves : (c : Call) (e : Error) → Preserves (on_disp (manage c e))
  unfolding on_disp manage
  manage-Preserves c e f = ground arith

  start_context-Preserves : (source : Source C R) (qid : ℕ) → Preserves (start_context source qid)
  unfolding start_context
  start_context-Preserves source qid f = ground arith

  pub start_event-Preserves : (source : Source C R) (qid : ℕ) → Preserves (start_event source qid)
  unfolding start_event
  start_event-Preserves source qid f =
      let g : Focus C R = record f { event = record (f.event) { qid = qid } } in
      Keeps-trans {g = g} (ground arith) (
        bind-Preserves
          (on_disp (manage (start_query_timer g.event.ident g.disp.query_timeout) timer_failure))
          (λ _. start_context source qid) (manage-Preserves _ _)
          (λ _. start_context-Preserves source qid) g)

  set_tcp_socket-Preserves : Preserves set_tcp_socket
  unfolding set_tcp_socket
  set_tcp_socket-Preserves f =
      bind-Preserves (throw_if f.event.tcp_sock assertion)
        (λ _. modify (λ (g : Focus C R). record g { event = record (g.event) { tcp_sock = true } }))
        (throw_if-Preserves _ _) (λ _ g. ground arith) f

  send_over_tcp-Preserves : (query : Text) → Preserves (send_over_tcp query)
  unfolding send_over_tcp
  send_over_tcp-Preserves query f =
      let g : Focus C R = record f { event = record (f.event) { tcp_rcvbuf = true } } in
      Keeps-trans {g = g} (ground arith) (
        bind-Preserves
          (on_disp (
            manage (create_tcp g.event.ident g.disp.server_address g.disp.server_port)
              socket_failure))
          (λ _. set_tcp_socket >> on_disp (manage (send_tcp g.event.ident query) socket_failure))
          (manage-Preserves _ _)
          (λ _.
            bind-Preserves set_tcp_socket
              (λ _. on_disp (manage (send_tcp g.event.ident query) socket_failure))
              set_tcp_socket-Preserves (λ _. manage-Preserves _ _))
          g)

  send_spec-Preserves : (spec : QuerySpec) → Preserves (send_spec spec)
  unfolding send_spec
  send_spec-Preserves spec = elim (Bool-cases (spec.proto == ipproto_udp)) [
    | inl udp ↦ rw udp (manage-Preserves _ _)
    | inr tcp ↦ rw tcp (send_over_tcp-Preserves spec.query)
  ]

  send_query-Preserves : (spec : QuerySpec) → Preserves (send_query spec)
  unfolding send_query
  send_query-Preserves spec =
      bind-Preserves (send_spec spec)
        (λ _. modify (λ (f : Focus C R). record f { disp = count_sent f.disp }))
        (send_spec-Preserves spec) (λ _ g. ground arith)

  -- Sending a query changes nothing of what `Keeps` lists, whether it throws or not.
  pub dispatch_query-Preserves : (source : Source C R) → Preserves (dispatch_query source)
  unfolding dispatch_query
  dispatch_query-Preserves source f =
      bind-Preserves (start_event source f.disp.qid) send_query
        (start_event-Preserves source f.disp.qid) send_query-Preserves f

  -- The counts behind a call that returned, and behind one that threw.
  abbrev pub Counts : Focus C R → Result (Unit {0}) × Focus C R → Type 0
  Counts f (ok _, g) =
      (g.event.qid ≡ f.disp.qid)
      × (g.disp.qid ≡ (f.disp.qid + 1) % u16_mod)
      × (g.disp.queries_sent ≡ (f.disp.queries_sent + 1) % u64_mod)
  Counts f (err _, g) = (g.disp.qid ≡ f.disp.qid) × (g.disp.queries_sent ≡ f.disp.queries_sent)

  -- Sending one query, if it returns, gives it the dispatcher's id, and adds one to the id in 16 bits
  -- and to the count of queries in 64; if anything throws, neither changes.
  pub dispatch_query-Counts :
      (source : Source C R) (f : Focus C R) → Counts f (dispatch_query source f)
  unfolding dispatch_query
  dispatch_query-Counts source f = ground arith
