-- ===== src/Dispatcher/Invariant/Session.antt =====
-- A whole session of src/lib/dispatcher.cc: from the first queries to the end of the event loop.
use queryperfpp.Base.{
  Option, some, modify, ◌∙◌, ℕ, zero, suc, ◌+◌, ◌%◌, ◌≤◌, ◌<◌, ◌≡◌, refl, ap, Bool, true, false,
  Option, List, [], ◌∷◌, ◌++◌, arith, length, length-append, Text, Error, assertion, socket_failure,
  timer_failure, Result, ok, err, throw_if, modify, ◌>>◌,
}
use queryperfpp.Dispatcher.Types.{
  create_udp, start_session_timer, Method, Call, Source, QueryEvent, Dispatcher, Focus,
}
use queryperfpp.Dispatcher.Query.{u16_mod, u64_mod, dispatch_query, manage}
use queryperfpp.Dispatcher.Query.Effect.{
  Keeps, Counts, dispatch_query-Preserves, dispatch_query-Counts,
}
use queryperfpp.Dispatcher.Loop.{Delivery, deliver}
use queryperfpp.Dispatcher.Session.{
  run, unless, run_loop, open_session, first_queries, make_pool, send_all, start_session,
}
use queryperfpp.Dispatcher.Numbering.{IsNumbered, IsNumbered-nil, IsNumbered-push}
use queryperfpp.Dispatcher.Invariant.{Inv, Post, Within, then-Post}
use queryperfpp.Dispatcher.Invariant.Callbacks.{deliver-Ensures}

module _ {C R : Type 0} where
  -- A dispatcher that has been configured and has not run: nothing sent, a window to fill.
  pub record IsFresh (d : Dispatcher C R) : Type 0 where
    pub unsent : d.queries_sent ≡ 0
    pub uncompleted : d.queries_completed ≡ 0
    pub first_id : d.qid ≡ 0
    pub empty : d.outstanding ≡ []
    pub sending : d.keep_sending ≡ true
    pub running : d.manager.stopped ≡ false
    pub window_open : 0 < d.window
    pub no_socket : d.udp_socket ≡ false

  -- In the loop over the first queries, `n` of them are sent.
  pub record Starting (n w : ℕ) (d : Dispatcher C R) : Type 0 where
    pub sent : d.queries_sent ≡ n
    pub completed : d.queries_completed ≡ 0
    pub id : d.qid ≡ n % u16_mod
    pub sending : d.keep_sending ≡ true
    pub running : d.manager.stopped ≡ false
    pub window : d.window ≡ w

  pub Starting-step :
      (n w : ℕ) (f g : Focus C R)
      → n + 1 < u64_mod
      → Starting n w f.disp
      → Keeps f g
      → Counts f (ok tt, g)
      → Starting (suc n) w g.disp
  Starting-step n w f g small st k c = ground arith

  send_all-Finished :
      (source : Source C R) (w n : ℕ) (sent events : List (QueryEvent C)) (d : Dispatcher C R)
      → length sent ≡ n
      → n + length events ≡ w
      → 0 < w
      → w < u64_mod
      → Starting n w d
      → IsNumbered n sent
      → Post (Within w) (send_all source sent events d)
  unfolding send_all
  send_all-Finished source w n sent [] d l m pos small st o =
      (record { books = ground arith; numbers = rw st.sent o }, ground arith)
  send_all-Finished source w n sent (e ∷ events) d l m pos small st o =
      go (dispatch_query source first).0 (dispatch_query source first).1
        (dispatch_query-Preserves source first) (dispatch_query-Counts source first)
        λ g next o'.
          send_all-Finished source w (suc n) (sent ++ g.event ∷ []) events g.disp
            (omega (arith, length-append sent (g.event ∷ []))) (omega arith) pos small next o'
    where
      first : Focus C R
      first = record { event = e; disp = d }

      go :
          (r : Result (Unit {0})) (g : Focus C R)
          → Keeps first g
          → Counts first (r, g)
          → ((h : Focus C R)
              → Starting (suc n) w h.disp
              → IsNumbered (suc n) (sent ++ h.event ∷ [])
              → Post (Within w) (send_all source (sent ++ h.event ∷ []) events h.disp))
          → Post {C = C} {R = R} (Within w) (elim r [
            | err x ↦ (err x, record (g.disp) { outstanding = sent ++ g.event ∷ events })
            | ok _ ↦ send_all source (sent ++ g.event ∷ []) events g.disp
          ])
      go (err x) g k c rest = ground arith
      go (ok u) g k c rest =
          rest g (Starting-step n w first g (omega arith) st k c)
            (IsNumbered-push n sent g.event (c.0 ∙ st.id) o)

  pub length-make_pool : (source : Source C R) (ident n : ℕ) → length (make_pool source ident n) ≡ n
  unfolding make_pool
  length-make_pool source ident zero = refl
  length-make_pool source ident (suc n) = ap suc (length-make_pool source (suc ident) n)

  -- Before the first query, `w` is the window.
  abbrev pub Quiet : ℕ → Dispatcher C R → Type 0
  Quiet w d = Starting 0 w d × (d.outstanding ≡ [])

  manage-Quiet :
      (w : ℕ) (c : Call) (e : Error) (d : Dispatcher C R)
      → Quiet w d
      → Post (Quiet w) (manage c e d)
  unfolding manage
  manage-Quiet w c e d q = ground arith

  pub open_session-Quiet :
      (w : ℕ) (d : Dispatcher C R) → Quiet w d → Post (Quiet w) (open_session d)
  unfolding open_session
  open_session-Quiet w d q =
      then-Post (Quiet w) (Quiet w)
        (manage (create_udp d.server_address d.server_port) socket_failure)
        (modify (λ (e : Dispatcher C R). record e { udp_socket = true; session_timer = true })
          >> manage (start_session_timer d.test_duration) timer_failure)
        d (manage-Quiet w _ _ d q)
        λ e q'.
          manage-Quiet w (start_session_timer d.test_duration) timer_failure
            (record e { udp_socket = true; session_timer = true }) (ground arith)

  module _ (source : Source C R) (now : ℕ) where
    first_queries-Finished :
        (w : ℕ) (d : Dispatcher C R)
        → 0 < w
        → w < u64_mod
        → Starting 0 w d
        → d.outstanding ≡ []
        → Post (Within w) (first_queries source now d)
    unfolding first_queries
    first_queries-Finished w d pos small st nil = rw nil (
        send_all-Finished source w 0 [] (make_pool source 0 d.window) _ refl
          (rw length-make_pool (omega arith)) pos small (ground arith) (IsNumbered-nil 0))

    -- A fresh dispatcher that starts a session fills its window, or throws with nothing completed.
    pub start_session-Finished :
        (d : Dispatcher C R)
        → IsFresh d
        → d.window < u64_mod
        → Post (Within d.window) (start_session source now d)
    unfolding start_session
    start_session-Finished d fresh small =
        then-Post (Quiet d.window) (Within d.window) (throw_if d.udp_socket assertion)
          (open_session >> first_queries source now) d (ground arith)
          λ e q.
            then-Post (Quiet d.window) (Within d.window) open_session (first_queries source now) e
              (open_session-Quiet d.window e q)
              λ f (st, nil). first_queries-Finished d.window f fresh.window_open small st nil

  unless-Post :
      (P : Dispatcher C R → Type 0) (b : Bool) (m : Method C R) (d : Dispatcher C R)
      → P d
      → Post P (m d)
      → Post P (unless b m d)
  unfolding unless
  unless-Post P true m d p h = p
  unless-Post P false m d p h = h

  -- The event loop keeps the invariant for any callbacks, as long as the counter does not wrap.
  pub run_loop-Finished :
      (source : Source C R) (parse_qid : Text → Option ℕ) (xs : List Delivery) (sent limit : ℕ)
      (d : Dispatcher C R)
      → Within sent d
      → sent + length xs ≤ limit
      → limit < u64_mod
      → Post (Within limit) (run_loop source parse_qid xs d)
  unfolding run_loop
  run_loop-Finished source parse_qid [] sent limit d p le small = (p.0, omega arith)
  run_loop-Finished source parse_qid (x ∷ xs) sent limit d p le small =
      unless-Post (Within limit) d.manager.stopped _ d (p.0, omega arith)
        (then-Post (Within (d.queries_sent + 1)) (Within limit) (deliver source parse_qid x)
          (run_loop source parse_qid xs) d (deliver-Ensures source parse_qid x d p.0 (omega arith))
          λ e q.
            run_loop-Finished source parse_qid xs (sent + 1) limit e (q.0, omega arith)
              (omega arith) small)

  ended-Inv : (d : Dispatcher C R) (later : Option ℕ) → Inv d → Inv (record d { end_time = later })
  ended-Inv d later inv = record { books = ground (arith, inv.books); numbers = inv.numbers }

  -- A whole session of a fresh dispatcher, for every source, every pattern of failing calls of the
  -- manager and every sequence of callbacks, as long as the 64-bit counter of queries does not wrap:
  -- if `run` returns, the invariant holds and no more than a window and one query for each callback
  -- were sent; if it throws, no more queries are completed than sent.
  pub run-Post :
      (source : Source C R) (parse_qid : Text → Option ℕ) (now later : ℕ) (xs : List Delivery)
      (d : Dispatcher C R)
      → IsFresh d
      → d.window + length xs < u64_mod
      → Post (Within (d.window + length xs)) (run source parse_qid now xs later d)
  unfolding run
  run-Post source parse_qid now later xs d fresh small =
      let limit = d.window + length xs in
      let finish : Method C R =
        modify (λ (e : Dispatcher C R). record e { end_time = some later }) in
      then-Post (Within d.window) (Within limit) (start_session source now)
        (run_loop source parse_qid xs >> finish) d
        (start_session-Finished source now d fresh (omega arith))
        λ e p.
          then-Post (Within limit) (Within limit) (run_loop source parse_qid xs) finish e
            (run_loop-Finished source parse_qid xs d.window limit e p (omega arith) small)
            λ f q. (ended-Inv f (some later) q.0, q.1)
