-- ===== src/Traffic/Returning.antt =====
-- When `sendQuery` of src/lib/dispatcher.cc returns: no call of the manager fails, the event holds no
-- TCP socket, and the supply has a query.
use queryperfpp.Base.{
  Gives, ℕ, ◌≡◌, refl, sym, ap, subst, ◌∙◌, Bool, true, false, [], ◌∷◌, Text, ◌==◌, Error,
  assertion, socket_failure, timer_failure, Result, ok, err, Action, if_both, throw_if, modify,
  ◌>>◌, ◌>>=◌,
}
use queryperfpp.Repository.Dns.{RequestParam}
use queryperfpp.Repository.State.{Repository, get_next_param, ipproto_udp}
use queryperfpp.Context.{QuerySpec, QueryContext, start, get_next_query, fill_message, render_query}
use queryperfpp.Dispatcher.Types.{
  Call, create_tcp, send_udp, send_tcp, start_query_timer, Dispatcher, Focus,
}
use queryperfpp.Dispatcher.Query.{
  next_outcome, later_outcomes, manage, on_disp, start_context, start_event, set_tcp_socket,
  send_over_tcp, send_spec, count_sent, send_query, dispatch_query,
}
use queryperfpp.Traffic.{context_source, Supply}
use queryperfpp.Traffic.Log.{source}

-- An action returns, and then something holds.
abbrev pub Returns : {S A : Type 0} → (A → S → Type 0) → Result A × S → Type 0
Returns P (ok a, s) = P a s
Returns P (err e, s) = ⊥

result-Returns :
    {S A B : Type 0} (P : A → S → Type 0) (Q : B → S → Type 0) (r : Result A) (t s : S)
    (k : A → Action S B)
    → Returns P (r, t)
    → ((a : A) (u : S) → P a u → Returns Q (k a u))
    → Returns Q (◌>>=◌ (λ (_ : S). (r, t)) k s)
result-Returns P Q (ok a) t s k p h = h a t p
result-Returns P Q (err e) t s k p h = elim p [ ]

pub bind-Returns :
    {S A B : Type 0} (P : A → S → Type 0) (Q : B → S → Type 0) (m : Action S A) (k : A → Action S B)
    (s : S)
    → Returns P (m s)
    → ((a : A) (u : S) → P a u → Returns Q (k a u))
    → Returns Q ((m >>= k) s)
bind-Returns P Q m k s p h = result-Returns P Q (m s).0 (m s).1 s k p h

pub Returns-map :
    {S A : Type 0} (P Q : A → S → Type 0) (x : Result A × S)
    → Returns P x
    → ((a : A) (s : S) → P a s → Q a s)
    → Returns Q x
Returns-map P Q (ok a, s) p h = h a s p
Returns-map P Q (err e, s) p h = p

-- What holds if it returns, holds.
pub Returns-both :
    {S A : Type 0} (P Q R : A → S → Type 0) (x : Result A × S)
    → Returns P x
    → Gives Q x
    → ((a : A) (s : S) → P a s → Q a s → R a s)
    → Returns R x
Returns-both P Q R (ok a, s) p q h = h a s p q
Returns-both P Q R (err e, s) p q h = elim p [ ]

pub Returns-ok :
    {S : Type 0} (P : Unit {0} → S → Type 0) (x : Result (Unit {0}) × S) → Returns P x → x.0 ≡ ok tt
Returns-ok P (ok u, s) p = refl
Returns-ok P (err e, s) p = elim p [ ]

module _ {C R : Type 0} where
  -- No call of the manager will fail.
  abbrev pub Reliable : Dispatcher C R → Type 0
  Reliable d = d.manager.outcomes ≡ []

  pub manage-Returns :
      (c : Call) (e : Error) (d : Dispatcher C R)
      → Reliable d
      → Returns (λ _ g. Reliable g × (g.repository ≡ d.repository)) (manage c e d)
  unfolding manage
  manage-Returns c e d reliable =
      let m = record (d.manager) { outcomes = later_outcomes d.manager.outcomes } in
      if_both (Returns (λ _ g. Reliable g × (g.repository ≡ d.repository)))
        (next_outcome d.manager.outcomes) {x = (err e, record d { manager = m })}
        {y = (ok tt, record d { manager = record m { calls = c ∷ m.calls } })} (λ fails. cc)
        (λ _. (ap later_outcomes reliable, refl))

  -- Nothing fails, and the event's socket and the repository stay.
  abbrev Stays : {A : Type 0} → Focus C R → A → Focus C R → Type 0
  Stays f _ g =
      Reliable g.disp
      × (g.event.tcp_sock ≡ f.event.tcp_sock)
      × (g.disp.repository ≡ f.disp.repository)

  on_disp-Returns :
      (c : Call) (e : Error) (f : Focus C R)
      → Reliable f.disp
      → Returns (Stays f) (on_disp (manage c e) f)
  unfolding on_disp
  on_disp-Returns c e f reliable = go (manage c e f.disp) (manage-Returns c e f.disp reliable)
    where
      go :
          (x : Result (Unit {0}) × Dispatcher C R)
          → Returns (λ _ g. Reliable g × (g.repository ≡ f.disp.repository)) x
          → Returns (Stays f) (x.0, record f { disp = x.1 })
      go (ok u, d) (p, q) = (p, refl, q)
      go (err x, d) p = p

  call-Reliable :
      (c : Call) (e : Error) (f : Focus C R)
      → Reliable f.disp
      → Returns (λ _ g. Reliable g.disp) (on_disp (manage c e) f)
  call-Reliable c e f reliable =
      Returns-map (Stays f) (λ _ g. Reliable g.disp) (on_disp (manage c e) f)
        (on_disp-Returns c e f reliable) λ _ g p. p.0

  send_over_tcp-Returns :
      (query : Text) (f : Focus C R)
      → Reliable f.disp
      → f.event.tcp_sock ≡ false
      → Returns (λ _ g. Reliable g.disp) (send_over_tcp query f)
  unfolding send_over_tcp set_tcp_socket
  send_over_tcp-Returns query f reliable free =
      let g : Focus C R = record f { event = record (f.event) { tcp_rcvbuf = true } } in
      let send = on_disp (manage (send_tcp g.event.ident query) socket_failure) in
      let set =
        modify (λ (h : Focus C R). record h { event = record (h.event) { tcp_sock = true } }) in
      bind-Returns (Stays g) (λ _ h. Reliable h.disp)
        (on_disp (
          manage (create_tcp g.event.ident g.disp.server_address g.disp.server_port)
            socket_failure))
        (λ _. set_tcp_socket >> send) g (on_disp-Returns _ _ g reliable)
        λ _ u (p, q, _).
          subst
            (λ (b : Bool).
              Returns (λ _ h. Reliable h.disp) (((throw_if b assertion >> set) >> send) u))
            (sym (q ∙ free))
            (call-Reliable _ _ (record u { event = record (u.event) { tcp_sock = true } }) p)

  send_spec-Returns :
      (spec : QuerySpec) (f : Focus C R)
      → Reliable f.disp
      → f.event.tcp_sock ≡ false
      → Returns (λ _ g. Reliable g.disp) (send_spec spec f)
  unfolding send_spec
  send_spec-Returns spec f reliable free =
      if_both (λ (m : Action (Focus C R) (Unit {0})). Returns (λ _ g. Reliable g.disp) (m f))
        (spec.proto == ipproto_udp)
        (λ _. call-Reliable (send_udp spec.query) socket_failure f reliable)
        (λ _. send_over_tcp-Returns spec.query f reliable free)

module _ (supply : Supply) where
  open supply use {dns, fuel, to_wire, wanted, At, serve}

  render_query-Returns :
      (qid : ℕ) (c : QueryContext) (param : RequestParam) (x : Result RequestParam × Repository)
      → x.0 ≡ ok param
      → Returns (λ _ _. Unit {0}) (render_query to_wire qid c (fill_message c.message x))
  unfolding render_query fill_message
  render_query-Returns qid c param (ok p, r) e = tt
  render_query-Returns qid c param (err x, r) e = cc

  -- While the supply is at some query, the context gives one.
  start_context-Returns :
      (i qid : ℕ) (f : Focus QueryContext Repository)
      → At i f.disp.repository
      → Reliable f.disp
      → Returns
          (λ _ g. Reliable g.disp × (g.event.tcp_sock ≡ f.event.tcp_sock))
          (start_context (source supply) qid f)
  unfolding start_context context_source start get_next_query
  start_context-Returns i qid f at reliable =
      go (start dns fuel to_wire qid (f.event.ctx, f.disp.repository)) (
        render_query-Returns qid f.event.ctx (wanted i) (get_next_param dns fuel f.disp.repository)
          (serve i f.disp.repository at).0)
    where
      go :
          (x : Result QuerySpec × (QueryContext × Repository))
          → Returns (λ _ _. Unit {0}) x
          → Returns {S = Focus QueryContext Repository}
              (λ _ g. Reliable g.disp × (g.event.tcp_sock ≡ f.event.tcp_sock))
              (
                x.0,
                record {
                  event = record (f.event) { ctx = x.1.0 };
                  disp = record (f.disp) { repository = x.1.1 };
                },
              )
      go (ok spec, (c, r)) p = (reliable, refl)
      go (err e, (c, r)) p = p

  start_event-Returns :
      (i qid : ℕ) (f : Focus QueryContext Repository)
      → At i f.disp.repository
      → Reliable f.disp
      → Returns
          (λ _ g. Reliable g.disp × (g.event.tcp_sock ≡ f.event.tcp_sock))
          (start_event (source supply) qid f)
  unfolding start_event
  start_event-Returns i qid f at reliable =
      let g : Focus QueryContext Repository = record f { event = record (f.event) { qid = qid } } in
      bind-Returns (Stays g) (λ _ h. Reliable h.disp × (h.event.tcp_sock ≡ f.event.tcp_sock))
        (on_disp (manage (start_query_timer g.event.ident g.disp.query_timeout) timer_failure))
        (λ _. start_context (source supply) qid) g (on_disp-Returns _ _ g reliable)
        λ _ u (p, q, r).
          Returns-map (λ _ h. Reliable h.disp × (h.event.tcp_sock ≡ u.event.tcp_sock))
            (λ _ h. Reliable h.disp × (h.event.tcp_sock ≡ f.event.tcp_sock))
            (start_context (source supply) qid u)
            (start_context-Returns i qid u (subst (At i) (sym r) at) p) λ _ h (a, b). (a, b ∙ q)

  pub dispatch_query-Returns :
      (i : ℕ) (f : Focus QueryContext Repository)
      → At i f.disp.repository
      → Reliable f.disp
      → f.event.tcp_sock ≡ false
      → Returns (λ _ g. Reliable g.disp) (dispatch_query (source supply) f)
  unfolding dispatch_query send_query count_sent
  dispatch_query-Returns i f at reliable free =
      bind-Returns (λ _ g. Reliable g.disp × (g.event.tcp_sock ≡ f.event.tcp_sock))
        (λ _ g. Reliable g.disp) (start_event (source supply) f.disp.qid) send_query f
        (start_event-Returns i f.disp.qid f at reliable)
        λ spec u (p, q).
          bind-Returns (λ _ g. Reliable g.disp) (λ _ g. Reliable g.disp) (send_spec spec)
            (λ _.
              modify (λ (g : Focus QueryContext Repository). record g { disp = count_sent g.disp }))
            u (send_spec-Returns spec u p (q ∙ free)) λ _ v r. r
