-- ===== src/Traffic/Opening.antt =====
-- When `Dispatcher::run` of src/lib/dispatcher.cc gets to its event loop, and what is on the wire then.
use queryperfpp.Base.{
  some, ℕ, zero, suc, ◌+◌, ◌<◌, ◌≡◌, refl, sym, ap, subst, ◌∙◌, Bool, true, false, List, [], ◌∷◌,
  ◌++◌, length, arith, Result, ok, err, Text, assertion, socket_failure, timer_failure, throw_if,
  modify, ◌>>◌, Error, if_both,
}
use queryperfpp.Repository.State.{Repository}
use queryperfpp.Context.{QueryContext}
use queryperfpp.Dispatcher.Types.{Call, create_udp, start_session_timer, QueryEvent, Focus, Source}
use queryperfpp.Dispatcher.Query.{u64_mod, dispatch_query, manage, next_outcome, later_outcomes}
use queryperfpp.Dispatcher.Loop.{set_outstanding}
use queryperfpp.Dispatcher.Session.{open_session, first_queries, make_pool, send_all, start_session}
use queryperfpp.Dispatcher.Invariant.Session.{IsFresh, length-make_pool}
use queryperfpp.Traffic.{Supply, sent_bytes, bytes_of}
use queryperfpp.Traffic.Log.{Session, source, Log, Log-same, dispatch_query-Log}
use queryperfpp.Traffic.Returning.{
  Returns, Reliable, Returns-both, bind-Returns, dispatch_query-Returns,
}

-- No event of a list holds a TCP socket.
abbrev pub Socketless : {C : Type 0} → List (QueryEvent C) → Type 0
Socketless [] = Unit
Socketless (e ∷ es) = (e.tcp_sock ≡ false) × Socketless es

make_pool-Socketless :
    {C R : Type 0} (queries : Source C R) (ident n : ℕ) → Socketless (make_pool queries ident n)
unfolding make_pool
make_pool-Socketless queries ident zero = tt
make_pool-Socketless queries ident (suc n) = (refl, make_pool-Socketless queries (suc ident) n)

module _ (supply : Supply) where
  -- The first `n` queries are on the wire, and no call of the manager will fail.
  abbrev pub Opened : ℕ → Unit {0} → Session → Type 0
  Opened n _ d = Log supply n d × Reliable d

  send_all-Opened :
      (n : ℕ) (sent events : List (QueryEvent QueryContext)) (d : Session)
      → n + length events < u64_mod
      → Socketless events
      → Opened n tt d
      → Returns (Opened (n + length events)) (send_all (source supply) sent events d)
  unfolding send_all
  send_all-Opened n sent [] d small free (log, reliable) =
      subst (λ (k : ℕ). Opened k tt (set_outstanding sent d)) (omega arith)
        (Log-same supply n d _ refl refl refl refl log, reliable)
  send_all-Opened n sent (e ∷ events) d small (free, rest_free) (log, reliable) =
      go (dispatch_query (source supply) first)
        (Returns-both (λ _ g. Reliable g.disp) (λ _ g. Log supply (suc n) g.disp)
          (λ _ g. Opened (suc n) tt g.disp) (dispatch_query (source supply) first)
          (dispatch_query-Returns supply n first log.at reliable free)
          (dispatch_query-Log supply n first (omega arith) log) λ _ g r l. (l, r))
        λ f opened.
          subst
            (λ (k : ℕ).
              Returns (Opened k) (send_all (source supply) (sent ++ f.event ∷ []) events f.disp))
            (omega arith)
            (send_all-Opened (suc n) (sent ++ f.event ∷ []) events f.disp (omega arith) rest_free
              opened)
    where
      first : Focus QueryContext Repository
      first = record { event = e; disp = d }

      go :
          (x : Result (Unit {0}) × Focus QueryContext Repository)
          → Returns (λ _ g. Opened (suc n) tt g.disp) x
          → ((g : Focus QueryContext Repository)
              → Opened (suc n) tt g.disp
              → Returns
                  (Opened (n + suc (length events)))
                  (send_all (source supply) (sent ++ g.event ∷ []) events g.disp))
          → Returns (Opened (n + suc (length events))) (elim x.0 [
            | err x' ↦ (err x', record (x.1.disp) { outstanding = sent ++ x.1.event ∷ events })
            | ok _ ↦ send_all (source supply) (sent ++ x.1.event ∷ []) events x.1.disp
          ])
      go (ok u, f) p rest = rest f p
      go (err x, f) p rest = p

  -- Nothing was sent, no query is there, and the window is the one at the start.
  abbrev Waiting : ℕ → Unit {0} → Session → Type 0
  Waiting w _ d = Opened 0 tt d × (d.outstanding ≡ []) × (d.window ≡ w)

  manage-Waiting :
      (w : ℕ) (c : Call) (e : Error) (d : Session)
      → bytes_of c ≡ []
      → Waiting w tt d
      → Returns (Waiting w) (manage c e d)
  unfolding manage
  manage-Waiting w c e d none ((log, reliable), empty, window) =
      let m = record (d.manager) { outcomes = later_outcomes d.manager.outcomes } in
      if_both (Returns (Waiting w)) (next_outcome d.manager.outcomes)
        {x = (err e, record d { manager = m })}
        {y = (ok tt, record d { manager = record m { calls = c ∷ m.calls } })} (λ fails. cc)
        (λ _. (
          (
            Log-same supply 0 d _ refl refl
                (ap (λ (ts : List Text). ts ++ sent_bytes d.manager.calls) none) refl log,
            ap later_outcomes reliable,
          ),
          empty,
          window,
        ))

  open_session-Waiting :
      (w : ℕ) (d : Session) → Waiting w tt d → Returns (Waiting w) (open_session d)
  unfolding open_session
  open_session-Waiting w d p =
      bind-Returns (Waiting w) (Waiting w)
        (manage (create_udp d.server_address d.server_port) socket_failure)
        (λ _.
          modify (λ (e : Session). record e { udp_socket = true; session_timer = true })
          >> manage (start_session_timer d.test_duration) timer_failure)
        d (manage-Waiting w _ _ d refl p)
        λ _ e ((log, reliable), empty, window).
          manage-Waiting w (start_session_timer d.test_duration) timer_failure
            (record e { udp_socket = true; session_timer = true }) refl
            ((Log-same supply 0 e _ refl refl refl refl log, reliable), empty, window)

  first_queries-Opened :
      (now w : ℕ) (d : Session)
      → w < u64_mod
      → Waiting w tt d
      → Returns (Opened w) (first_queries (source supply) now d)
  unfolding first_queries
  first_queries-Opened now w d small ((log, reliable), empty, window) =
      let pool = make_pool (source supply) 0 d.window in
      let size : length pool ≡ w = length-make_pool (source supply) 0 d.window ∙ window in
      let filled : 0 + length pool ≡ w = omega (arith, size) in
      let started : Session = record d {
        outstanding = d.outstanding ++ pool;
        start_time = some now;
      } in
      subst
        (λ (es : List (QueryEvent QueryContext)).
          Returns (Opened w) (send_all (source supply) [] es started))
        (ap (λ (es : List (QueryEvent QueryContext)). es ++ pool) (sym empty))
        (subst (λ (k : ℕ). Returns (Opened k) (send_all (source supply) [] pool started)) filled
          (send_all-Opened 0 [] pool started (omega (arith, size))
            (make_pool-Socketless (source supply) 0 d.window)
            (Log-same supply 0 d _ refl refl refl refl log, reliable)))

  -- A dispatcher that has not run gets to its event loop, with the first queries of its supply on the
  -- wire, as many as the window, if no call of the manager fails.
  pub start_session-Opened :
      (now : ℕ) (d : Session)
      → IsFresh d
      → d.manager.calls ≡ []
      → Reliable d
      → supply.At 0 d.repository
      → d.window < u64_mod
      → Returns (Opened d.window) (start_session (source supply) now d)
  unfolding start_session
  start_session-Opened now d fresh quiet reliable at small =
      subst
        (λ (b : Bool).
          Returns (Opened d.window)
            ((throw_if b assertion >> (open_session >> first_queries (source supply) now)) d))
        (sym fresh.no_socket)
        (bind-Returns (Waiting d.window) (Opened d.window) open_session
          (λ _. first_queries (source supply) now) d
          (open_session-Waiting d.window d (
            (
              record {
                sent = fresh.unsent;
                id = ground (arith, fresh.first_id);
                bytes = ap sent_bytes quiet;
                at = at;
              },
              reliable,
            ),
            fresh.empty,
            refl,
          ))
          λ _ e p. first_queries-Opened now d.window e small p)
