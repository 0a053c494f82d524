-- ===== src/Dispatcher/Protocol/Callbacks.antt =====
-- The calls of the callbacks of src/lib/dispatcher.cc, in their order.
use queryperfpp.Base.{
  ◌∙◌, Gives, ℕ, ◌≡◌, refl, Bool, true, false, Bool-cases, inl, inr, if_both, is_nil, subst, ◌∷◌,
  ◌++◌, Text, Option, Result, ok, err,
}
use queryperfpp.Dispatcher.Types.{delete_tcp, Source, Dispatcher, QueryEvent, Focus}
use queryperfpp.Dispatcher.Query.{dispatch_query, stop_manager, record_call}
use queryperfpp.Dispatcher.Loop.{
  Split, Delivery, deliver, put_back, drop_event, delete_event, clear_socket_of, count_completed,
  set_outstanding, splice_end,
}
use queryperfpp.Dispatcher.Loop.Kept.{Behind, IsKept, deliver-Kept}
use queryperfpp.Dispatcher.Invariant.Callbacks.{
  socket_cleared, clear_socket_of-ok, clear_socket_of-err,
}
use queryperfpp.Dispatcher.Protocol.{IsTrace, deleted, stopped, Traced, Running}
use queryperfpp.Dispatcher.Protocol.Sending.{dispatch_query-Running}

module _ {C R : Type 0} (address : Text) (port duration timeout : ℕ) where
  abbrev pub Trace : Dispatcher C R → Type 0
  Trace d = Traced address port duration timeout d

  abbrev pub Run : Dispatcher C R → Type 0
  Run d = Running address port duration timeout d

  -- The settings and the number of queries are the same.
  abbrev pub Same : Dispatcher C R → Dispatcher C R → Type 0
  Same d e =
      (e.server_address ≡ d.server_address)
      × (e.server_port ≡ d.server_port)
      × (e.test_duration ≡ d.test_duration)
      × (e.query_timeout ≡ d.query_timeout)
      × (e.queries_sent ≡ d.queries_sent)

  pub retraced :
      (d e : Dispatcher C R) (r : Trace d)
      → Same d e
      → IsTrace address port duration timeout e.manager.calls r.queries e.manager.stopped
      → Trace e
  retraced d e r (a, p, l, t, s) trace = record {
    same_address = a ∙ r.same_address;
    same_port = p ∙ r.same_port;
    same_duration = l ∙ r.same_duration;
    same_timeout = t ∙ r.same_timeout;
    queries = r.queries;
    trace = trace;
    counted = s ∙ r.counted;
  }

  -- What calls nothing.
  pub silent-Running : (d e : Dispatcher C R) → Same d e → e.manager ≡ d.manager → Run d → Run e
  silent-Running d e same manager r = record {
    traced = retraced d e r.traced same (rw manager r.traced.trace);
    runs = rw manager r.runs;
  }

  running-IsTrace :
      (d : Dispatcher C R) (r : Run d)
      → IsTrace address port duration timeout d.manager.calls r.traced.queries false
  running-IsTrace d r =
      subst (IsTrace address port duration timeout d.manager.calls r.traced.queries) r.runs
        r.traced.trace

  count_completed-Running :
      (answered : Bool) (d : Dispatcher C R) → Run d → Run (count_completed answered d)
  unfolding count_completed
  count_completed-Running true d r = silent-Running d _ (refl, refl, refl, refl, refl) refl r
  count_completed-Running false d r = r

  put_back-Traced :
      (s : Split (QueryEvent C)) (x : Result (Unit {0}) × Focus C R)
      → Gives (λ _ g. Run g.disp) x
      → Gives (Behind Trace) (put_back s x)
  unfolding put_back
  put_back-Traced s (ok u, g) r =
      (silent-Running g.disp (set_outstanding (splice_end s.before g.event s.after) g.disp)
        (refl, refl, refl, refl, refl) refl r).traced
  put_back-Traced s (err e, g) r = tt

  -- A socket is deleted.
  deleting-Running :
      (i : ℕ) (d e : Dispatcher C R)
      → Same d e
      → e.manager ≡ record (d.manager) { calls = delete_tcp i ∷ d.manager.calls }
      → Run d
      → Run e
  deleting-Running i d e same manager r =
      let trace = deleted i r.traced.queries d.manager.calls (running-IsTrace d r) in
      record {
        traced = retraced d e r.traced same (rw (manager, r.runs) trace);
        runs = rw manager r.runs;
      }

  delete_event-Running : (e : QueryEvent C) (d : Dispatcher C R) → Run d → Run (delete_event e d)
  unfolding delete_event record_call
  delete_event-Running e d r =
      if_both Run e.tcp_sock
        (λ _. deleting-Running e.ident d _ (refl, refl, refl, refl, refl) refl r) (λ _. r)

  stop_manager-Traced : (d : Dispatcher C R) → Run d → Trace (stop_manager d)
  unfolding stop_manager
  stop_manager-Traced d r =
      retraced d (stop_manager d) r.traced (refl, refl, refl, refl, refl)
        (stopped r.traced.queries d.manager.calls (running-IsTrace d r))

  drop_event-Traced :
      (s : Split (QueryEvent C)) (d : Dispatcher C R) → Run d → Trace (drop_event s d)
  unfolding drop_event
  drop_event-Traced s d r =
      let e = delete_event s.found d in
      let left =
        silent-Running e (set_outstanding (s.before ++ s.after) e) (refl, refl, refl, refl, refl)
          refl (delete_event-Running s.found d r) in
      if_both Trace (is_nil (s.before ++ s.after)) (λ _. stop_manager-Traced _ left)
        (λ _. left.traced)

  clear_socket_of-Running :
      (s : Split (QueryEvent C)) (d : Dispatcher C R)
      → Run d
      → Gives (Behind Run) (clear_socket_of s d)
  unfolding socket_cleared record_call
  clear_socket_of-Running s d r = elim (Bool-cases s.found.tcp_sock) [
    | inl e ↦ rw (clear_socket_of-ok s d e) (
        deleting-Running s.found.ident d (socket_cleared s d) (refl, refl, refl, refl, refl) refl r)
    | inr e ↦ rw (clear_socket_of-err s d e) tt
  ]

  Running-IsKept : (source : Source C R) → IsKept source Run Trace
  Running-IsKept source = record {
    unchanged = λ d r. r.traced;
    counted = count_completed-Running;
    ended = λ d r. (silent-Running d _ (refl, refl, refl, refl, refl) refl r).traced;
    restarted = λ s d r split.
        put_back-Traced s (dispatch_query source (record { event = s.found; disp = d }))
          (dispatch_query-Running source (record { event = s.found; disp = d }) r);
    dropped = λ s d r split. drop_event-Traced s d r;
    cleared = λ s d r split. clear_socket_of-Running s d r;
  }

  -- While the event loop runs, a callback goes on with the calls.
  pub deliver-Traced :
      (source : Source C R) (parse_qid : Text → Option ℕ) (x : Delivery) (d : Dispatcher C R)
      → Run d
      → Gives (Behind Trace) (deliver source parse_qid x d)
  deliver-Traced source = deliver-Kept source Run Trace (Running-IsKept source)
