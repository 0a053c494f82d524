-- ===== src/Traffic/Sending.antt =====
-- What one call of `sendQuery` in src/lib/dispatcher.cc adds to the queries on the wire.
use queryperfpp.Base.{
  Gives, bind-Gives, Gives-map, ℕ, ◌≡◌, refl, sym, ap, ◌∙◌, true, false, List, [], ◌∷◌, ◌++◌, Text,
  ◌==◌, Error, Result, ok, err, Action, if_both, Bool, throw_if, modify, assertion, socket_failure,
  timer_failure, ◌>>◌,
}
use queryperfpp.Context.{QuerySpec}
use queryperfpp.Repository.State.{ipproto_udp}
use queryperfpp.Dispatcher.Types.{
  start_query_timer, send_udp, send_tcp, create_tcp, Source, Call, Dispatcher, Focus,
}
use queryperfpp.Dispatcher.Query.{
  next_outcome, later_outcomes, manage, on_disp, start_context, start_event, set_tcp_socket,
  send_over_tcp, send_spec, count_sent, send_query, dispatch_query,
}
use queryperfpp.Traffic.{sent_bytes, bytes_of}

module _ {C R : Type 0} where
  -- The bytes go out, and the repository and the context stay.
  abbrev Adds : List Text → Focus C R → Unit {0} → Focus C R → Type 0
  Adds texts f _ g =
      (sent_bytes g.disp.manager.calls ≡ texts ++ sent_bytes f.disp.manager.calls)
      × (g.disp.repository ≡ f.disp.repository)
      × (g.event.ctx ≡ f.event.ctx)

  manage-Adds :
      (c : Call) (e : Error) (f : Focus C R) → Gives (Adds (bytes_of c) f) (on_disp (manage c e) f)
  unfolding manage on_disp
  manage-Adds c e f =
      let m = record (f.disp.manager) { outcomes = later_outcomes f.disp.manager.outcomes } in
      if_both
        (λ (x : Result (Unit {0}) × Dispatcher C R).
          Gives (Adds (bytes_of c) f) (x.0, record f { disp = x.1 }))
        (next_outcome f.disp.manager.outcomes) {x = (err e, record (f.disp) { manager = m })}
        {y = (ok tt, record (f.disp) { manager = record m { calls = c ∷ m.calls } })} (λ _. tt)
        (λ _. (refl, refl, refl))

  set_tcp_socket-Adds : (f : Focus C R) → Gives (Adds [] f) (set_tcp_socket f)
  unfolding set_tcp_socket
  set_tcp_socket-Adds f = go f.event.tcp_sock
    where
      go :
          (b : Bool)
          → Gives (Adds [] f) (
              (throw_if b assertion
                  >> modify (λ (g : Focus C R). record g {
                    event = record (g.event) { tcp_sock = true };
                  }))
                f)
      go true = tt
      go false = (refl, refl, refl)

  -- Behind a part that sent nothing.
  Adds-behind :
      (texts : List Text) (f g : Focus C R) (x : Result (Unit {0}) × Focus C R)
      → Adds [] f tt g
      → Gives (Adds texts g) x
      → Gives (Adds texts f) x
  Adds-behind texts f g x p q =
      Gives-map (Adds texts g) (Adds texts f) x q
        λ _ h r. (r.0 ∙ ap (λ (ts : List Text). texts ++ ts) p.0, r.1 ∙ p.1, r.2 ∙ p.2)

  send_over_tcp-Adds :
      (query : Text) (f : Focus C R) → Gives (Adds (query ∷ []) f) (send_over_tcp query f)
  unfolding send_over_tcp
  send_over_tcp-Adds query f =
      let g : Focus C R = record f { event = record (f.event) { tcp_rcvbuf = true } } in
      let send = on_disp (manage (send_tcp g.event.ident query) socket_failure) in
      bind-Gives (Adds [] f) (Adds (query ∷ []) f)
        (on_disp (
          manage (create_tcp g.event.ident g.disp.server_address g.disp.server_port)
            socket_failure))
        (λ _. set_tcp_socket >> send) g (manage-Adds _ _ g)
        λ _ u p.
          bind-Gives (Adds [] u) (Adds (query ∷ []) f) set_tcp_socket (λ _. send) u
            (set_tcp_socket-Adds u)
            λ _ v q.
              Adds-behind (query ∷ []) f v (send v) (q.0 ∙ p.0, q.1 ∙ p.1, q.2 ∙ p.2)
                (manage-Adds _ _ v)

  send_spec-Adds :
      (spec : QuerySpec) (f : Focus C R) → Gives (Adds (spec.query ∷ []) f) (send_spec spec f)
  unfolding send_spec
  send_spec-Adds spec f =
      if_both (λ (m : Action (Focus C R) (Unit {0})). Gives (Adds (spec.query ∷ []) f) (m f))
        (spec.proto == ipproto_udp) (λ _. manage-Adds (send_udp spec.query) socket_failure f)
        (λ _. send_over_tcp-Adds spec.query f)

  -- Behind `start`, the context has given its next query, and nothing was sent.
  abbrev Starts : Source C R → ℕ → Focus C R → QuerySpec → Focus C R → Type 0
  Starts source qid f spec g =
      (sent_bytes g.disp.manager.calls ≡ sent_bytes f.disp.manager.calls)
      × (source.start qid (f.event.ctx, f.disp.repository)
          ≡ (ok spec, (g.event.ctx, g.disp.repository)))

  start_context-Starts :
      (source : Source C R) (qid : ℕ) (f : Focus C R)
      → Gives (Starts source qid f) (start_context source qid f)
  unfolding start_context
  start_context-Starts source qid f =
      go (source.start qid (f.event.ctx, f.disp.repository)).0
        (source.start qid (f.event.ctx, f.disp.repository)).1 refl
    where
      go :
          (r : Result QuerySpec) (p : C × R)
          → source.start qid (f.event.ctx, f.disp.repository) ≡ (r, p)
          → Gives (Starts source qid f) (
            r,
            record {
              event = record (f.event) { ctx = p.0 };
              disp = record (f.disp) { repository = p.1 };
            },
          )
      go (ok spec) p e = (refl, e)
      go (err x) p e = tt

  start_event-Starts :
      (source : Source C R) (qid : ℕ) (f : Focus C R)
      → Gives (Starts source qid f) (start_event source qid f)
  unfolding start_event
  start_event-Starts source qid f =
      let g : Focus C R = record f { event = record (f.event) { qid = qid } } in
      bind-Gives (Adds [] f) (Starts source qid f)
        (on_disp (manage (start_query_timer g.event.ident g.disp.query_timeout) timer_failure))
        (λ _. start_context source qid) g (manage-Adds _ _ g)
        λ _ u p.
          Gives-map (Starts source qid u) (Starts source qid f) (start_context source qid u)
            (start_context-Starts source qid u)
            λ spec h q. (
              q.0 ∙ p.0,
              ap (λ (x : C × R). source.start qid x)
                    (sym (
                      ap (λ (c : C). (c, u.disp.repository)) p.2
                      ∙ ap (λ (r : R). (f.event.ctx, r)) p.1))
                  ∙ q.1,
            )

  -- What one call of `dispatch_query` sends: the next query of the source, with the id of the
  -- dispatcher.
  pub record Sent (source : Source C R) (f g : Focus C R) : Type 0 where
    pub spec : QuerySpec
    pub given :
        source.start f.disp.qid (f.event.ctx, f.disp.repository)
        ≡ (ok spec, (g.event.ctx, g.disp.repository))
    pub bytes : sent_bytes g.disp.manager.calls ≡ spec.query ∷ sent_bytes f.disp.manager.calls

  pub dispatch_query-Sent :
      (source : Source C R) (f : Focus C R) → Gives (λ _. Sent source f) (dispatch_query source f)
  unfolding dispatch_query send_query count_sent
  dispatch_query-Sent source f =
      bind-Gives (Starts source f.disp.qid f) (λ _. Sent source f) (start_event source f.disp.qid)
        send_query f (start_event-Starts source f.disp.qid f)
        λ spec u p.
          bind-Gives (Adds (spec.query ∷ []) u) (λ _. Sent source f) (send_spec spec)
            (λ _. modify (λ (g : Focus C R). record g { disp = count_sent g.disp })) u
            (send_spec-Adds spec u)
            λ _ v q. record {
              spec = spec;
              given =
                  p.1
                  ∙ sym (
                      ap (λ (x : C × R). (ok spec, x))
                        (ap (λ (c : C). (c, v.disp.repository)) q.2
                          ∙ ap (λ (r : R). (u.event.ctx, r)) q.1));
              bytes = q.0 ∙ ap (λ (ts : List Text). spec.query ∷ ts) p.0;
            }
