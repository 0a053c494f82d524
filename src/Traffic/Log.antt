-- ===== src/Traffic/Log.antt =====
-- The queries on the wire behind `restartQuery` of src/lib/dispatcher.cc.
use queryperfpp.Base.{
  Gives, ℕ, suc, ◌+◌, ◌%◌, ◌≤◌, ◌<◌, ◌≡◌, refl, sym, ap, subst, ◌∙◌, Bool, true, false, Option,
  none, some, List, [], ◌∷◌, ◌++◌, Text, is_nil, arith, Result, ok, err, if_both,
}
use queryperfpp.Repository.Dns.{RequestParam}
use queryperfpp.Repository.State.{Repository, get_next_param}
use queryperfpp.Context.{Message, set_qid, query_calls, QuerySpec, QueryContext, start}
use queryperfpp.Context.Sends.{Sends, start-Sends}
use queryperfpp.Dispatcher.Types.{Source, QueryEvent, Dispatcher, Focus}
use queryperfpp.Dispatcher.Query.{record_call, u16_mod, u64_mod, dispatch_query, stop_manager}
use queryperfpp.Dispatcher.Query.Effect.{Counts, dispatch_query-Counts}
use queryperfpp.Dispatcher.Loop.{
  delete_event, Split, find_if, match_response, count_completed, put_back, drop_event,
  restart_found, restart_query,
}
use queryperfpp.Traffic.{context_source, Supply, sent_bytes, query_bytes, first_bytes}
use queryperfpp.Traffic.Sending.{Sent, dispatch_query-Sent}

abbrev pub Session : Type 0
Session = Dispatcher QueryContext Repository

module _ (supply : Supply) where
  open supply use {dns, fuel, to_wire, forgets, edns, wanted, At, serve}

  abbrev pub source : Source QueryContext Repository
  source = context_source dns fuel to_wire

  -- `n` queries were sent, and they are the first `n`.
  pub record Log (n : ℕ) (d : Session) : Type 0 where
    pub sent : d.queries_sent ≡ n
    pub id : d.qid ≡ n % u16_mod
    pub bytes : sent_bytes d.manager.calls ≡ first_bytes to_wire edns wanted n
    pub at : At n d.repository

  pub Log-sent_bytes :
      (n : ℕ) (d : Session)
      → Log n d
      → sent_bytes d.manager.calls ≡ first_bytes to_wire edns wanted d.queries_sent
  Log-sent_bytes n d log =
      log.bytes ∙ ap (λ (k : ℕ). first_bytes to_wire edns wanted k) (sym log.sent)

  start-wanted :
      (i qid : ℕ) (c c' : QueryContext) (r r' : Repository) (spec : QuerySpec)
      → At i r
      → start dns fuel to_wire qid (c, r) ≡ (ok spec, (c', r'))
      → (spec.query ≡ to_wire (query_calls (wanted i) edns ++ set_qid qid ∷ [])) × At (suc i) r'
  start-wanted i qid c c' r r' spec a e =
      go (get_next_param dns fuel r).0 (get_next_param dns fuel r).1 served.0 served.1 served.2 (
        subst (Sends dns fuel to_wire forgets qid c (get_next_param dns fuel r)) e
          (start-Sends dns fuel to_wire forgets qid c r))
    where
      served :
          ((get_next_param dns fuel r).0 ≡ ok (wanted i))
          × At (suc i) (get_next_param dns fuel r).1
          × ((get_next_param dns fuel r).1.edns ≡ edns)
      served = serve i r a

      go :
          (x : Result RequestParam) (s : Repository)
          → x ≡ ok (wanted i)
          → At (suc i) s
          → s.edns ≡ edns
          → Sends dns fuel to_wire forgets qid c (x, s) (ok spec, (c', r'))
          → (spec.query ≡ to_wire (query_calls (wanted i) edns ++ set_qid qid ∷ [])) × At (suc i) r'
      go (ok param) s p b q h = (
        h.1 ∙ ap (λ (m : Message). to_wire (m ++ set_qid qid ∷ [])) (cc),
        subst (At (suc i)) (sym h.2) b,
      )
      go (err x) s p b q h = elim h [ ]

  Log-Sent :
      (n : ℕ) (f g : Focus QueryContext Repository) (u : Unit {0})
      → n + 1 < u64_mod
      → Log n f.disp
      → Counts f (ok u, g)
      → Sent source f g
      → Log (suc n) g.disp
  unfolding context_source
  Log-Sent n f g u small log c s =
      let (bytes, at) =
        start-wanted n f.disp.qid f.event.ctx g.event.ctx f.disp.repository g.disp.repository s.spec
          log.at s.given in
      record {
        sent = ground (arith, log.sent);
        id = ground (arith, log.id);
        bytes =
            s.bytes
            ∙ ap (λ (t : Text). t ∷ sent_bytes f.disp.manager.calls)
                (bytes
                  ∙ ap (λ (q : ℕ). to_wire (query_calls (wanted n) edns ++ set_qid q ∷ [])) log.id)
            ∙ ap (λ (ts : List Text). query_bytes to_wire edns wanted n ∷ ts) log.bytes;
        at = at;
      }

  -- Sending puts the next query on the wire.
  pub dispatch_query-Log :
      (n : ℕ) (f : Focus QueryContext Repository)
      → n + 1 < u64_mod
      → Log n f.disp
      → Gives (λ _ g. Log (suc n) g.disp) (dispatch_query source f)
  dispatch_query-Log n f small log =
      go (dispatch_query source f).0 (dispatch_query source f).1 (dispatch_query-Counts source f)
        (dispatch_query-Sent source f)
    where
      go :
          (r : Result (Unit {0})) (g : Focus QueryContext Repository)
          → Counts f (r, g)
          → Gives (λ _. Sent source f) (r, g)
          → Gives (λ _ g. Log (suc n) g.disp) (r, g)
      go (ok u) g c s = Log-Sent n f g u small log c s
      go (err e) g c s = tt

  -- What does not count, send or read leaves the log.
  pub Log-same :
      (n : ℕ) (d e : Session)
      → e.queries_sent ≡ d.queries_sent
      → e.qid ≡ d.qid
      → sent_bytes e.manager.calls ≡ sent_bytes d.manager.calls
      → e.repository ≡ d.repository
      → Log n d
      → Log n e
  Log-same n d e sent id bytes repo log = record {
    sent = sent ∙ log.sent;
    id = id ∙ log.id;
    bytes = bytes ∙ log.bytes;
    at = subst (At n) (sym repo) log.at;
  }

  -- At most one more query was sent.
  abbrev pub Logged : ℕ → Unit {0} → Session → Type 0
  Logged limit _ d = (n : ℕ) × (n ≤ limit) × Log n d

  count_completed-Log :
      (n : ℕ) (answered : Bool) (d : Session) → Log n d → Log n (count_completed answered d)
  unfolding count_completed
  count_completed-Log n true d log = Log-same n d _ refl refl refl refl log
  count_completed-Log n false d log = log

  delete_event-Log :
      (n : ℕ) (e : QueryEvent QueryContext) (d : Session) → Log n d → Log n (delete_event e d)
  unfolding delete_event record_call
  delete_event-Log n e d log =
      if_both (Log n) e.tcp_sock (λ _. Log-same n d _ refl refl refl refl log) (λ _. log)

  drop_event-Log :
      (n : ℕ) (s : Split (QueryEvent QueryContext)) (d : Session) → Log n d → Log n (drop_event s d)
  unfolding drop_event stop_manager
  drop_event-Log n s d log =
      let d' = delete_event s.found d in
      let log' = delete_event-Log n s.found d log in
      if_both (Log n) (is_nil (s.before ++ s.after)) (λ _. Log-same n d' _ refl refl refl refl log')
        (λ _. Log-same n d' _ refl refl refl refl log')

  put_back-Log :
      (n : ℕ) (s : Split (QueryEvent QueryContext))
      (x : Result (Unit {0}) × Focus QueryContext Repository)
      → Gives (λ _ g. Log (suc n) g.disp) x
      → Gives (Logged (n + 1)) (put_back s x)
  unfolding put_back
  put_back-Log n s (ok u, g) log =
      (suc n, omega arith, Log-same (suc n) g.disp _ refl refl refl refl log)
  put_back-Log n s (err e, g) log = tt

  restart_found-Log :
      (n : ℕ) (answered : Bool) (o : Option (Split (QueryEvent QueryContext))) (d : Session)
      → n + 1 < u64_mod
      → Log n d
      → Gives (Logged (n + 1)) (restart_found source answered o d)
  unfolding restart_found
  restart_found-Log n answered none d small log = (n, omega arith, log)
  restart_found-Log n answered (some s) d small log =
      let d' = count_completed answered d in
      let log' = count_completed-Log n answered d log in
      if_both (Gives (Logged (n + 1))) d'.keep_sending
        (λ _.
          put_back-Log n s (dispatch_query source (record { event = s.found; disp = d' }))
            (dispatch_query-Log n (record { event = s.found; disp = d' }) small log'))
        (λ _. (n, omega arith, drop_event-Log n s d' log'))

  pub restart_query-Log :
      (n qid : ℕ) (answered : Bool) (d : Session)
      → n + 1 < u64_mod
      → Log n d
      → Gives (Logged (n + 1)) (restart_query source qid answered d)
  unfolding restart_query
  restart_query-Log n qid answered d small log =
      restart_found-Log n answered (find_if (match_response qid) d.outstanding) d small log
