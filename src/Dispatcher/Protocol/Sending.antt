-- ===== src/Dispatcher/Protocol/Sending.antt =====
-- The calls of one query of src/lib/dispatcher.cc, in their order.
use queryperfpp.Base.{
  Gives, bind-Gives, Gives-map, Gives-both, always-Gives, ℕ, suc, ◌+◌, ◌%◌, ◌≡◌, refl, sym, ap, ◌∙◌,
  subst, ◌⊎◌, inl, inr, false, List, ◌∷◌, Text, Result, ok, err, arith, modify,
}
use queryperfpp.Context.{QuerySpec}
use queryperfpp.Dispatcher.Types.{
  Source, Call, create_tcp, send_udp, send_tcp, start_query_timer, Focus,
}
use queryperfpp.Dispatcher.Query.{
  u64_mod, dispatch_query, start_event, send_query, send_spec, count_sent,
}
use queryperfpp.Dispatcher.Query.Effect.{
  Keeps, Counts, start_event-Preserves, dispatch_query-Preserves, dispatch_query-Counts,
}
use queryperfpp.Dispatcher.Calls.Sending.{calls_of, Makes, Asks, send_spec-Asks, start_event-Makes}
use queryperfpp.Dispatcher.Protocol.{IsTrace, over_udp, over_tcp, Running}

module _ {C R : Type 0} where
  -- The timer, then the query over one socket or the other.
  abbrev Groups : Focus C R → Unit {0} → Focus C R → Type 0
  Groups f _ g =
      let timer = start_query_timer f.event.ident f.disp.query_timeout in
      (query : Text) × ((calls_of g ≡ send_udp query ∷ timer ∷ calls_of f)
        ⊎ (calls_of g
            ≡ send_tcp f.event.ident query
              ∷ create_tcp f.event.ident f.disp.server_address f.disp.server_port
              ∷ timer
              ∷ calls_of f))

  Asks-Groups :
      (spec : QuerySpec) (f u v : Focus C R)
      → Makes (start_query_timer f.event.ident f.disp.query_timeout ∷ calls_of f) f spec u
      → Keeps f u
      → Asks spec u tt v
      → Groups f tt (record v { disp = count_sent v.disp })
  unfolding count_sent
  Asks-Groups spec f u v (p, i, s) k (inl (q, j, t)) =
      (spec.query, inl (q ∙ ap (λ (cs : List Call). send_udp spec.query ∷ cs) p))
  Asks-Groups spec f u v (p, i, s) k (inr (q, j, free, taken)) =
      (spec.query, inr (q ∙ rw (p, i, k.address, k.port) refl))

  dispatch_query-Groups :
      (source : Source C R) (f : Focus C R) → Gives (Groups f) (dispatch_query source f)
  unfolding dispatch_query send_query
  dispatch_query-Groups source f =
      let timer = start_query_timer f.event.ident f.disp.query_timeout in
      let First : QuerySpec → Focus C R → Type 0 =
        λ spec u. Makes (timer ∷ calls_of f) f spec u × Keeps f u in
      bind-Gives First (Groups f) (start_event source f.disp.qid) send_query f
        (Gives-both (Makes (timer ∷ calls_of f) f) (λ _ u. Keeps f u)
          (start_event source f.disp.qid f) (start_event-Makes source f.disp.qid f)
          (always-Gives (λ u. Keeps f u) (start_event source f.disp.qid f)
            (start_event-Preserves source f.disp.qid f)))
        λ spec u (p, k).
          bind-Gives (Asks spec u) (Groups f) (send_spec spec)
            (λ _. modify (λ (g : Focus C R). record g { disp = count_sent g.disp })) u
            (send_spec-Asks spec u) λ _ v q. Asks-Groups spec f u v p k q

  abbrev Counted : Focus C R → Unit {0} → Focus C R → Type 0
  Counted f _ g = g.disp.queries_sent ≡ (f.disp.queries_sent + 1) % u64_mod

  Counts-Counted :
      (f : Focus C R) (x : Result (Unit {0}) × Focus C R) → Counts f x → Gives (Counted f) x
  Counts-Counted f (ok u, g) (_, _, sent) = sent
  Counts-Counted f (err e, g) c = tt

  module _ {address : Text} {port duration timeout : ℕ} where
    Groups-IsTrace :
        (f g : Focus C R) (n : ℕ)
        → f.disp.server_address ≡ address
        → f.disp.server_port ≡ port
        → f.disp.query_timeout ≡ timeout
        → IsTrace address port duration timeout (calls_of f) n false
        → Groups f tt g
        → IsTrace address port duration timeout (calls_of g) (suc n) false
    Groups-IsTrace f g n a p t trace (query, inl q) =
        rw (q, t) (over_udp f.event.ident n query (calls_of f) trace)
    Groups-IsTrace f g n a p t trace (query, inr q) =
        rw (q, a, p, t) (over_tcp f.event.ident n query (calls_of f) trace)

    one_more :
        (f g : Focus C R)
        → Running address port duration timeout f.disp
        → Groups f tt g
        → Keeps f g
        → Counted f tt g
        → Running address port duration timeout g.disp
    one_more f g r groups keeps counted =
        let n = r.traced.queries in
        let stopped = keeps.stopped ∙ r.runs in
        let trace =
          subst (IsTrace address port duration timeout (calls_of f) n) r.runs r.traced.trace in
        let next =
          Groups-IsTrace f g n r.traced.same_address r.traced.same_port r.traced.same_timeout trace
            groups in
        record {
          traced = record {
            same_address = keeps.address ∙ r.traced.same_address;
            same_port = keeps.port ∙ r.traced.same_port;
            same_duration = keeps.duration ∙ r.traced.same_duration;
            same_timeout = keeps.timeout ∙ r.traced.same_timeout;
            queries = suc n;
            trace =
                subst (IsTrace address port duration timeout (calls_of g) (suc n)) (sym stopped)
                  next;
            counted = omega (arith, counted, r.traced.counted);
          };
          runs = stopped;
        }

    -- One more query.
    pub dispatch_query-Running :
        (source : Source C R) (f : Focus C R)
        → Running address port duration timeout f.disp
        → Gives (λ _ g. Running address port duration timeout g.disp) (dispatch_query source f)
    dispatch_query-Running source f r =
        let x = dispatch_query source f in
        let Kept : Unit {0} → Focus C R → Type 0 = λ _ g. Keeps f g in
        Gives-map (λ u g. Groups f u g × (Keeps f g × Counted f u g)) _ x
          (Gives-both (Groups f) (λ u g. Keeps f g × Counted f u g) x
            (dispatch_query-Groups source f)
            (Gives-both Kept (Counted f) x
              (always-Gives (λ g. Keeps f g) x (dispatch_query-Preserves source f))
              (Counts-Counted f x (dispatch_query-Counts source f))))
          λ _ g (groups, (keeps, counted)). one_more f g r groups keeps counted
