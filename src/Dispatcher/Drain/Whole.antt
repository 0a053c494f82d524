-- ===== src/Dispatcher/Drain/Whole.antt =====
-- The end of a whole session of src/lib/dispatcher.cc: what comes before the session timer, the timer,
-- and the callbacks of the queries that are then outstanding.
use queryperfpp.Base.{
  ℕ, ◌+◌, ◌<◌, ◌≡◌, refl, sym, ap, subst, ◌∙◌, Bool, true, false, Option, some, List, [], ◌∷◌, ◌++◌,
  arith, length, Text, Result, ok, err, ◌>>◌, modify,
}
use queryperfpp.Dispatcher.Types.{Method, Source, Dispatcher}
use queryperfpp.Dispatcher.Query.{u64_mod}
use queryperfpp.Dispatcher.Loop.{Delivery, session_timeout, deliver, session_timer_callback}
use queryperfpp.Dispatcher.Session.{start_session, run_loop, unless, run}
use queryperfpp.Dispatcher.Invariant.{Inv, Post, Within}
use queryperfpp.Dispatcher.Invariant.Session.{IsFresh, start_session-Finished, run_loop-Finished}
use queryperfpp.Dispatcher.Drain.{AllConcern, run_loop-DrainsTo}
use queryperfpp.Dispatcher.Drain.Steps.{DrainsTo}

none_left : {A : Type 0} (xs : List A) → length xs ≡ 0 → xs ≡ []
none_left [] h = refl
none_left (x ∷ xs) h = absurd (omega (arith, h))

module _ {C R : Type 0} where
  -- A method that returns, with no query left and the manager stopped.
  abbrev pub Ends : Result (Unit {0}) × Dispatcher C R → Type 0
  Ends (ok _, d) = (d.outstanding ≡ []) × (d.manager.stopped ≡ true)
  Ends (err e, d) = ⊥

  DrainsTo-Ends : (x : Result (Unit {0}) × Dispatcher C R) → DrainsTo 0 x → Ends x
  DrainsTo-Ends (ok _, d) v = (none_left d.outstanding v.left, v.stops refl)
  DrainsTo-Ends (err e, d) v = elim v [ ]

  module _ (source : Source C R) (parse_qid : Text → Option ℕ) where
    -- A stopped loop delivers nothing.
    run_loop-stopped :
        (xs : List Delivery) (d : Dispatcher C R)
        → d.manager.stopped ≡ true
        → run_loop source parse_qid xs d ≡ (ok tt, d)
    unfolding run_loop unless
    run_loop-stopped [] d h = refl
    run_loop-stopped (x ∷ xs) d h =
        ap (λ (b : Bool). unless b (deliver source parse_qid x >> run_loop source parse_qid xs) d) h

    -- The callbacks behind those that returned.
    run_loop-append :
        (xs ys : List Delivery) (d e : Dispatcher C R)
        → run_loop source parse_qid xs d ≡ (ok tt, e)
        → run_loop source parse_qid (xs ++ ys) d ≡ run_loop source parse_qid ys e
    unfolding run_loop unless
    run_loop-append [] ys d e h = ap (λ (f : Dispatcher C R). run_loop source parse_qid ys f) cc
    run_loop-append (x ∷ xs) ys d e h =
        stops (λ f q. run_loop-append xs ys f e q) d.manager.stopped refl h
      where
        Rest : Type 0
        Rest =
            (f : Dispatcher C R)
            → run_loop source parse_qid xs f ≡ (ok tt, e)
            → run_loop source parse_qid (xs ++ ys) f ≡ run_loop source parse_qid ys e

        rest : List Delivery → Bool → Result (Unit {0}) × Dispatcher C R
        rest zs b = unless b (deliver source parse_qid x >> run_loop source parse_qid zs) d

        delivered :
            Rest
            → (r : Result (Unit {0})) (f : Dispatcher C R)
            → ◌>>◌ (λ (_ : Dispatcher C R). (r, f)) (run_loop source parse_qid xs) d ≡ (ok tt, e)
            → ◌>>◌ (λ (_ : Dispatcher C R). (r, f)) (run_loop source parse_qid (xs ++ ys)) d
              ≡ run_loop source parse_qid ys e
        delivered more (ok _) f q = more f q
        delivered more (err _) f q = cc

        stops :
            Rest
            → (b : Bool) → d.manager.stopped ≡ b
            → rest xs b ≡ (ok tt, e)
            → rest (xs ++ ys) b ≡ run_loop source parse_qid ys e
        stops more true p q =
            sym (run_loop-stopped ys d p)
            ∙ ap (λ (f : Dispatcher C R). run_loop source parse_qid ys f) cc
        stops more false p q =
            delivered more (deliver source parse_qid x d).0 (deliver source parse_qid x d).1 q

    -- With the invariant, the session timer and the callbacks of the outstanding queries end the loop.
    timer-Ends :
        (after : List Delivery) (e : Dispatcher C R)
        → Inv e
        → length after ≡ length e.outstanding
        → AllConcern source parse_qid after (record e { keep_sending = false })
        → Ends (run_loop source parse_qid (session_timeout ∷ after) e)
    unfolding run_loop unless deliver session_timer_callback
    timer-Ends after e inv size all = go e.manager.stopped refl
      where
        ended : Dispatcher C R
        ended = record e { keep_sending = false }

        go :
            (b : Bool)
            → e.manager.stopped ≡ b
            → Ends (
                unless b
                  (deliver source parse_qid session_timeout >> run_loop source parse_qid after)
                  e)
        go true p = (none_left e.outstanding (inv.books.drained p), p)
        go false p = DrainsTo-Ends (run_loop source parse_qid after ended) (
            run_loop-DrainsTo source parse_qid after ended
              (record {
                ended = refl;
                left = sym size;
                stops = λ none. absurd (omega (arith, inv.books.busy p, size, none));
                goes_on = λ _. p;
              })
              all)

    -- A dispatcher that has not run starts its session, and some callbacks return. Then the session
    -- timer expires, and each query that is outstanding gets a callback: `run` returns, no query is
    -- left, and the manager is stopped.
    pub run-Ends :
        (now later : ℕ) (before after : List Delivery) (d opened e : Dispatcher C R)
        → IsFresh d
        → d.window + length before < u64_mod
        → start_session source now d ≡ (ok tt, opened)
        → run_loop source parse_qid before opened ≡ (ok tt, e)
        → length after ≡ length e.outstanding
        → AllConcern source parse_qid after (record e { keep_sending = false })
        → Ends (run source parse_qid now (before ++ session_timeout ∷ after) later d)
    unfolding run
    run-Ends now later before after d opened e fresh small starts returns size all =
        let finish : Method C R =
          modify (λ (f : Dispatcher C R). record f { end_time = some later }) in
        let first : Within d.window opened =
          subst (Post (Within d.window)) starts
            (start_session-Finished source now d fresh (omega arith)) in
        let inv : Within (d.window + length before) e =
          subst (Post (Within (d.window + length before))) returns (
            run_loop-Finished source parse_qid before d.window (d.window + length before) opened
              first (omega arith) small) in
        let loop : Method C R = run_loop source parse_qid (before ++ session_timeout ∷ after) in
        subst
          (λ (x : Result (Unit {0}) × Dispatcher C R).
            Ends (◌>>◌ (λ (_ : Dispatcher C R). x) (loop >> finish) d))
          (sym starts)
          (subst
            (λ (x : Result (Unit {0}) × Dispatcher C R).
              Ends (◌>>◌ (λ (_ : Dispatcher C R). x) finish opened))
            (sym (run_loop-append before (session_timeout ∷ after) opened e returns))
            (finished (run_loop source parse_qid (session_timeout ∷ after) e)
              (timer-Ends after e inv.0 size all)))
      where
        finished :
            (x : Result (Unit {0}) × Dispatcher C R)
            → Ends x
            → Ends (
                ◌>>◌
                  (λ (_ : Dispatcher C R). x)
                  (modify (λ (f : Dispatcher C R). record f { end_time = some later }))
                  opened)
        finished (ok _, f) v = v
        finished (err x, f) v = elim v [ ]
