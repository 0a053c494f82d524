-- ===== src/Dispatcher/Calls/Sending.antt =====
-- The calls of one `sendQuery` of src/lib/dispatcher.cc.
use queryperfpp.Base.{
  Gives, bind-Gives, Gives-map, ℕ, ◌≡◌, refl, sym, ap, ◌∙◌, ◌⊎◌, inl, inr, Bool, true, false, List,
  ◌∷◌, Text, ◌==◌, Error, assertion, socket_failure, timer_failure, Result, ok, err, Action,
  if_both, throw_if, modify, ◌>>◌, arith, some,
}
use queryperfpp.Context.{QuerySpec}
use queryperfpp.Repository.State.{ipproto_udp}
use queryperfpp.Dispatcher.Types.{
  Source, Call, create_tcp, send_udp, send_tcp, start_query_timer, Dispatcher, Focus,
}
use queryperfpp.Dispatcher.Query.{
  next_outcome, later_outcomes, manage, on_disp, start_context, start_event, set_tcp_socket,
  send_over_tcp, send_spec, count_sent, send_query, dispatch_query,
}
use queryperfpp.Dispatcher.Calls.{replay, phase_by, one_if}

module _ {C R : Type 0} where
  abbrev pub calls_of : Focus C R → List Call
  calls_of f = f.disp.manager.calls

  -- Some calls were made, and the event keeps its number and its socket.
  abbrev pub Makes : {A : Type 0} → List Call → Focus C R → A → Focus C R → Type 0
  Makes cs f _ g =
      (calls_of g ≡ cs) × (g.event.ident ≡ f.event.ident) × (g.event.tcp_sock ≡ f.event.tcp_sock)

  manage-Makes :
      (c : Call) (e : Error) (f : Focus C R)
      → Gives (Makes (c ∷ calls_of f) f) (on_disp (manage c e) f)
  unfolding manage on_disp
  manage-Makes c e f =
      let m = record (f.disp.manager) { outcomes = later_outcomes f.disp.manager.outcomes } in
      if_both
        (λ (x : Result (Unit {0}) × Dispatcher C R).
          Gives (Makes (c ∷ calls_of f) f) (x.0, record f { disp = x.1 }))
        (next_outcome f.disp.manager.outcomes) {x = (err e, record (f.disp) { manager = m })}
        {y = (ok tt, record (f.disp) { manager = record m { calls = c ∷ m.calls } })} (λ _. tt)
        (λ _. (refl, refl, refl))

  -- A socket was taken.
  abbrev pub Takes : List Call → Focus C R → Unit {0} → Focus C R → Type 0
  Takes cs f _ g =
      (calls_of g ≡ cs)
      × (g.event.ident ≡ f.event.ident)
      × (f.event.tcp_sock ≡ false)
      × (g.event.tcp_sock ≡ true)

  set_tcp_socket-Takes : (f : Focus C R) → Gives (Takes (calls_of f) f) (set_tcp_socket f)
  unfolding set_tcp_socket
  set_tcp_socket-Takes f = go f.event.tcp_sock refl
    where
      go :
          (b : Bool)
          → f.event.tcp_sock ≡ b
          → Gives (Takes (calls_of f) f) (
              (throw_if b assertion
                  >> modify (λ (g : Focus C R). record g {
                    event = record (g.event) { tcp_sock = true };
                  }))
                f)
      go true e = tt
      go false e = (refl, refl, e, refl)

  send_over_tcp-Takes :
      (query : Text) (f : Focus C R)
      → Gives
          (Takes
            (send_tcp f.event.ident query
              ∷ create_tcp f.event.ident f.disp.server_address f.disp.server_port
              ∷ calls_of f)
            f)
          (send_over_tcp query f)
  unfolding send_over_tcp
  send_over_tcp-Takes query f =
      let g : Focus C R = record f { event = record (f.event) { tcp_rcvbuf = true } } in
      let create = create_tcp f.event.ident f.disp.server_address f.disp.server_port in
      let send = on_disp (manage (send_tcp f.event.ident query) socket_failure) in
      let All = Takes (send_tcp f.event.ident query ∷ create ∷ calls_of f) f in
      bind-Gives (Makes (create ∷ calls_of f) g) All (on_disp (manage create socket_failure))
        (λ _. set_tcp_socket >> send) g (manage-Makes _ _ g)
        λ _ u (p, i, s).
          bind-Gives (Takes (calls_of u) u) All set_tcp_socket (λ _. send) u
            (set_tcp_socket-Takes u)
            λ _ v (p', i', s', t').
              Gives-map (Makes (send_tcp f.event.ident query ∷ calls_of v) v) All (send v)
                (manage-Makes _ _ v)
                λ _ w (q, j, k). (
                  q ∙ ap (λ (cs : List Call). send_tcp f.event.ident query ∷ cs) (p' ∙ p),
                  j ∙ i' ∙ i,
                  sym s ∙ s',
                  k ∙ t',
                )

  -- The calls of a query, over UDP or over TCP.
  abbrev pub Asks : QuerySpec → Focus C R → Unit {0} → Focus C R → Type 0
  Asks spec f u g =
      Makes (send_udp spec.query ∷ calls_of f) f u g
      ⊎ Takes
          (send_tcp f.event.ident spec.query
            ∷ create_tcp f.event.ident f.disp.server_address f.disp.server_port
            ∷ calls_of f)
          f u g

  pub send_spec-Asks : (spec : QuerySpec) (f : Focus C R) → Gives (Asks spec f) (send_spec spec f)
  unfolding send_spec
  send_spec-Asks spec f =
      if_both (λ (m : Action (Focus C R) (Unit {0})). Gives (Asks spec f) (m f))
        (spec.proto == ipproto_udp)
        (λ _.
          Gives-map (Makes (send_udp spec.query ∷ calls_of f) f) (Asks spec f)
            (on_disp (manage (send_udp spec.query) socket_failure) f)
            (manage-Makes (send_udp spec.query) socket_failure f) λ _ _ p. inl p)
        (λ _.
          Gives-map _ (Asks spec f) (send_over_tcp spec.query f) (send_over_tcp-Takes spec.query f)
            λ _ _ p. inr p)

  start_context-Makes :
      (source : Source C R) (qid : ℕ) (f : Focus C R)
      → Gives (Makes (calls_of f) f) (start_context source qid f)
  unfolding start_context
  start_context-Makes source qid f = go (source.start qid (f.event.ctx, f.disp.repository)).0
    where
      go : (r : Result QuerySpec) → Gives (Makes (calls_of f) f) (r, (start_context source qid f).1)
      go (ok spec) = (refl, refl, refl)
      go (err x) = tt

  pub start_event-Makes :
      (source : Source C R) (qid : ℕ) (f : Focus C R)
      → Gives
          (Makes (start_query_timer f.event.ident f.disp.query_timeout ∷ calls_of f) f)
          (start_event source qid f)
  unfolding start_event
  start_event-Makes source qid f =
      let g : Focus C R = record f { event = record (f.event) { qid = qid } } in
      let start = start_query_timer f.event.ident f.disp.query_timeout in
      bind-Gives (Makes (start ∷ calls_of f) g) (Makes (start ∷ calls_of f) f)
        (on_disp (manage start timer_failure)) (λ _. start_context source qid) g
        (manage-Makes _ _ g)
        λ _ u (p, i, s).
          Gives-map (Makes (calls_of u) u) (Makes (start ∷ calls_of f) f)
            (start_context source qid u) (start_context-Makes source qid u)
            λ _ v (q, j, t). (q ∙ p, j ∙ i, t ∙ s)

  -- What the calls of one event come to, for itself and for the others.
  pub record Follows (f : Focus C R) (u : Unit {0}) (g : Focus C R) : Type 0 where
    pub ident : g.event.ident ≡ f.event.ident
    pub others :
        (i : ℕ) → (f.event.ident == i) ≡ false → replay i (calls_of g) ≡ replay i (calls_of f)
    pub own :
        replay f.event.ident (calls_of f) ≡ some (phase_by (one_if f.event.tcp_sock))
        → replay f.event.ident (calls_of g) ≡ some (phase_by (one_if g.event.tcp_sock))

  Asks-Follows :
      (spec : QuerySpec) (f u v : Focus C R)
      → Makes (start_query_timer f.event.ident f.disp.query_timeout ∷ calls_of f) f spec u
      → Asks spec u tt v
      → Follows f tt (record v { disp = count_sent v.disp })
  unfolding count_sent
  Asks-Follows spec f u v (p, i, s) (inl (q, j, t)) = record {
    ident = j ∙ i;
    others = λ k other. rw q (rw p refl);
    own = λ h. rw q (rw p (ground (arith, h)));
  }
  Asks-Follows spec f u v (p, i, s) (inr (q, j, free, taken)) = record {
    ident = j ∙ i;
    others = λ k other. rw q (rw (p, i) (ground (arith, other)));
    own = λ h. rw q (rw (p, i) (ground (arith, h)));
  }

  -- A query that is sent takes a socket only if the event holds none, sends once over it, and leaves
  -- the sockets of other events alone.
  pub dispatch_query-Follows :
      (source : Source C R) (f : Focus C R) → Gives (Follows f) (dispatch_query source f)
  unfolding dispatch_query send_query
  dispatch_query-Follows source f =
      bind-Gives (Makes (start_query_timer f.event.ident f.disp.query_timeout ∷ calls_of f) f)
        (Follows f) (start_event source f.disp.qid) send_query f
        (start_event-Makes source f.disp.qid f)
        λ spec u p.
          bind-Gives (Asks spec u) (Follows f) (send_spec spec)
            (λ _. modify (λ (g : Focus C R). record g { disp = count_sent g.disp })) u
            (send_spec-Asks spec u) λ _ v q. Asks-Follows spec f u v p q
