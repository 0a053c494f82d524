-- ===== src/Traffic/Run.antt =====
-- A whole session: `Dispatcher::run` of src/lib/dispatcher.cc puts the queries on the wire in order.
use queryperfpp.Base.{
  Gives, bind-Gives, ℕ, suc, ◌+◌, ◌<◌, ◌≡◌, refl, sym, ap, subst, Bool, true, false, some, List, [],
  ◌∷◌, ◌++◌, Text, length, length-append, arith, Error, Option, assertion, socket_failure,
  timer_failure, Result, ok, err, if_both, throw_if, modify, ◌>>◌,
}
use queryperfpp.Repository.State.{Repository}
use queryperfpp.Context.{QueryContext}
use queryperfpp.Dispatcher.Types.{Method, Call, create_udp, start_session_timer, QueryEvent, Focus}
use queryperfpp.Dispatcher.Query.{u64_mod, dispatch_query, manage, next_outcome, later_outcomes}
use queryperfpp.Dispatcher.Loop.{Delivery, deliver}
use queryperfpp.Dispatcher.Session.{
  run, unless, run_loop, open_session, first_queries, make_pool, send_all, start_session,
}
use queryperfpp.Dispatcher.Invariant.Session.{IsFresh, length-make_pool, start_session-Finished}
use queryperfpp.Dispatcher.Invariant.{Post, Within}
use queryperfpp.Traffic.{Supply, sent_bytes, bytes_of, first_bytes}
use queryperfpp.Traffic.Log.{
  Session, source, Log, Logged, Log-same, Log-sent_bytes, dispatch_query-Log,
}
use queryperfpp.Traffic.Session.{deliver-Log}

module _ (supply : Supply) where
  -- Some queries were sent, and they are the first ones.
  abbrev Logs : Unit {0} → Session → Type 0
  Logs _ d = (n : ℕ) × Log supply n d

  unless-Logs :
      (b : Bool) (m : Method QueryContext Repository) (d : Session)
      → Logs tt d
      → Gives Logs (m d)
      → Gives Logs (unless b m d)
  unfolding unless
  unless-Logs true m d log h = log
  unless-Logs false m d log h = h

  run_loop-Logs :
      (parse_qid : Text → Option ℕ) (xs : List Delivery) (n : ℕ) (d : Session)
      → n + length xs < u64_mod
      → Log supply n d
      → Gives Logs (run_loop (source supply) parse_qid xs d)
  unfolding run_loop
  run_loop-Logs parse_qid [] n d small log = (n, log)
  run_loop-Logs parse_qid (x ∷ xs) n d small log =
      unless-Logs d.manager.stopped _ d (n, log)
        (bind-Gives (Logged supply (n + 1)) Logs (deliver (source supply) parse_qid x)
          (λ _. run_loop (source supply) parse_qid xs) d
          (deliver-Log supply n (omega arith) parse_qid x d log)
          λ _ e (m, le, log'). run_loop-Logs parse_qid xs m e (omega arith) log')

  send_all-Logs :
      (n : ℕ) (sent events : List (QueryEvent QueryContext)) (d : Session)
      → n + length events < u64_mod
      → Log supply n d
      → Gives Logs (send_all (source supply) sent events d)
  unfolding send_all
  send_all-Logs n sent [] d small log = (n, Log-same supply n d _ refl refl refl refl log)
  send_all-Logs n sent (e ∷ events) d small log =
      go (dispatch_query (source supply) first).0 (dispatch_query (source supply) first).1
        (dispatch_query-Log supply n first (omega arith) log)
        λ f log'. send_all-Logs (suc n) (sent ++ f.event ∷ []) events f.disp (omega arith) log'
    where
      first : Focus QueryContext Repository
      first = record { event = e; disp = d }

      go :
          (r : Result (Unit {0})) (f : Focus QueryContext Repository)
          → Gives (λ _ g. Log supply (suc n) g.disp) (r, f)
          → ((g : Focus QueryContext Repository)
              → Log supply (suc n) g.disp
              → Gives Logs (send_all (source supply) (sent ++ g.event ∷ []) events g.disp))
          → Gives Logs (elim r [
            | err x ↦ (err x, record (f.disp) { outstanding = sent ++ f.event ∷ events })
            | ok _ ↦ send_all (source supply) (sent ++ f.event ∷ []) events f.disp
          ])
      go (ok u) f log' rest = rest f log'
      go (err x) f log' rest = tt

  -- Nothing was sent, and there is room for the window.
  abbrev Unsent : ℕ → Unit {0} → Session → Type 0
  Unsent w _ d = Log supply 0 d × (length d.outstanding + d.window ≡ w)

  manage-Unsent :
      (w : ℕ) (c : Call) (e : Error) (d : Session)
      → bytes_of c ≡ []
      → Unsent w tt d
      → Gives (Unsent w) (manage c e d)
  unfolding manage
  manage-Unsent w c e d none (log, room) =
      let m = record (d.manager) { outcomes = later_outcomes d.manager.outcomes } in
      if_both (Gives (Unsent w)) (next_outcome d.manager.outcomes)
        {x = (err e, record d { manager = m })}
        {y = (ok tt, record d { manager = record m { calls = c ∷ m.calls } })} (λ _. tt)
        (λ _. (
          Log-same supply 0 d _ refl refl
              (ap (λ (ts : List Text). ts ++ sent_bytes d.manager.calls) none) refl log,
          room,
        ))

  open_session-Unsent : (w : ℕ) (d : Session) → Unsent w tt d → Gives (Unsent w) (open_session d)
  unfolding open_session
  open_session-Unsent w d p =
      bind-Gives (Unsent w) (Unsent w)
        (manage (create_udp d.server_address d.server_port) socket_failure)
        (λ _.
          modify (λ (e : Session). record e { udp_socket = true; session_timer = true })
          >> manage (start_session_timer d.test_duration) timer_failure)
        d (manage-Unsent w _ _ d refl p)
        λ _ e (log, room).
          manage-Unsent w (start_session_timer d.test_duration) timer_failure
            (record e { udp_socket = true; session_timer = true }) refl
            (Log-same supply 0 e _ refl refl refl refl log, room)

  first_queries-Logs :
      (now w : ℕ) (d : Session)
      → w < u64_mod
      → Unsent w tt d
      → Gives Logs (first_queries (source supply) now d)
  unfolding first_queries
  first_queries-Logs now w d small (log, room) =
      let pool = make_pool (source supply) 0 d.window in
      send_all-Logs 0 [] (d.outstanding ++ pool) _
        (omega
          (arith, length-append d.outstanding pool, length-make_pool (source supply) 0 d.window))
        (Log-same supply 0 d _ refl refl refl refl log)

  start_session-Logs :
      (now : ℕ) (d : Session)
      → IsFresh d
      → d.window < u64_mod
      → Log supply 0 d
      → Gives Logs (start_session (source supply) now d)
  unfolding start_session
  start_session-Logs now d fresh small log =
      subst
        (λ (b : Bool).
          Gives Logs
            ((throw_if b assertion >> (open_session >> first_queries (source supply) now)) d))
        (sym fresh.no_socket)
        (bind-Gives (Unsent d.window) Logs open_session (λ _. first_queries (source supply) now) d
          (open_session-Unsent d.window d (
            log,
            omega (arith, ap (λ (es : List (QueryEvent QueryContext)). length es) fresh.empty),
          ))
          λ _ e p. first_queries-Logs now d.window e small p)

  -- A session that returns has put exactly the first queries of its supply on the wire, in order, as
  -- many as it counts: the query number `n` is made of the parameter number `n`, with `n` in 16 bits
  -- as its id, whichever answers came and whichever event sent it. This holds for a dispatcher that
  -- has not run or called its manager, at the start of the supply, as long as the 64-bit counter of
  -- queries does not wrap.
  pub run-sent_bytes :
      (parse_qid : Text → Option ℕ) (now later : ℕ) (xs : List Delivery) (d : Session)
      → IsFresh d
      → d.manager.calls ≡ []
      → supply.At 0 d.repository
      → d.window + length xs < u64_mod
      → Gives
          (λ _ e.
            sent_bytes e.manager.calls
            ≡ first_bytes supply.to_wire supply.edns supply.wanted e.queries_sent)
          (run (source supply) parse_qid now xs later d)
  unfolding run
  run-sent_bytes parse_qid now later xs d fresh quiet at small =
      go (start_session (source supply) now d).0 (start_session (source supply) now d).1
        (start_session-Logs now d fresh (omega arith) (record {
          sent = fresh.unsent;
          id = ground (arith, fresh.first_id);
          bytes = ap sent_bytes quiet;
          at = at;
        }))
        (start_session-Finished (source supply) now d fresh (omega arith))
    where
      finish : Method QueryContext Repository
      finish = modify (λ (e : Session). record e { end_time = some later })

      InOrder : Unit {0} → Session → Type 0
      InOrder _ e =
          sent_bytes e.manager.calls
          ≡ first_bytes supply.to_wire supply.edns supply.wanted e.queries_sent

      go :
          (r : Result (Unit {0})) (e : Session)
          → Gives Logs (r, e)
          → Post (Within d.window) (r, e)
          → Gives InOrder
              (◌>>◌ (λ (_ : Session). (r, e)) (run_loop (source supply) parse_qid xs >> finish) d)
      go (ok u) e (n, log) p =
          bind-Gives Logs InOrder (run_loop (source supply) parse_qid xs) (λ _. finish) e
            (run_loop-Logs parse_qid xs n e (omega (arith, log.sent, p.1)) log)
            λ _ f (m, log'). Log-sent_bytes supply m f log'
      go (err x) e log p = tt
