-- ===== src/Dispatcher/Refine/Run.antt =====
-- A whole session of src/lib/dispatcher.cc, `Dispatcher::run`, is one of the abstract session.
use queryperfpp.Base.{
  ◌⊎◌, inl, inr, ℕ, ◌+◌, ◌<◌, ◌≡◌, sym, subst, Bool, true, false, Option, some, List, [], ◌∷◌,
  arith, length, Text, Result, ok, err, modify, ◌>>◌,
}
use queryperfpp.Dispatcher.Types.{Method, Source, Dispatcher}
use queryperfpp.Dispatcher.Query.{u64_mod}
use queryperfpp.Dispatcher.Loop.{Delivery, deliver}
use queryperfpp.Dispatcher.Session.{run, unless, run_loop, start_session}
use queryperfpp.Dispatcher.Spec.{Window, Label, Step, Steps, stay, then_step, initial}
use queryperfpp.Dispatcher.Invariant.{Post, Within}
use queryperfpp.Dispatcher.Invariant.Callbacks.{deliver-Ensures}
use queryperfpp.Dispatcher.Invariant.Session.{IsFresh, start_session-Finished}
use queryperfpp.Dispatcher.Refine.{view, Does}
use queryperfpp.Dispatcher.Refine.Session.{label, deliver-Does}
use queryperfpp.Dispatcher.Refine.Start.{Opens, start_session-Opens}

module _ {C R : Type 0} where
  -- What is left behind a number of steps; a part that threw was the first to change anything after
  -- them, and sent nothing.
  abbrev pub Reaches : Window → Result (Unit {0}) × Dispatcher C R → Type 0
  Reaches v (ok _, e) = Steps v (view e)
  Reaches v (err _, e) = (w : Window) × Steps v w × (e.queries_sent ≡ w.sent)

  Reaches-earlier :
      (u v : Window) (l : Label) (r : Result (Unit {0}) × Dispatcher C R)
      → Step u l v
      → Reaches v r
      → Reaches u r
  Reaches-earlier u v l (ok _, e) s p = then_step u v (view e) l s p
  Reaches-earlier u v l (err _, e) s (w, p, q) = (w, then_step u v w l s p, q)

  unless-Reaches :
      (b : Bool) (m : Method C R) (d : Dispatcher C R)
      → Reaches (view d) (m d)
      → Reaches (view d) (unless b m d)
  unfolding unless
  unless-Reaches true m d p = stay (view d)
  unless-Reaches false m d p = p

  run_loop-Reaches :
      (source : Source C R) (parse_qid : Text → Option ℕ) (xs : List Delivery) (sent : ℕ)
      (d : Dispatcher C R)
      → Within sent d
      → sent + length xs < u64_mod
      → Reaches (view d) (run_loop source parse_qid xs d)
  unfolding run_loop
  run_loop-Reaches source parse_qid [] sent d p small = stay (view d)
  run_loop-Reaches source parse_qid (x ∷ xs) sent d p small =
      unless-Reaches d.manager.stopped (deliver source parse_qid x >> run_loop source parse_qid xs)
        d
        (go (deliver source parse_qid x d).0 (deliver source parse_qid x d).1
          (deliver-Does source parse_qid x d p.0 (omega arith))
          (deliver-Ensures source parse_qid x d p.0 (omega arith))
          λ e q. run_loop-Reaches source parse_qid xs (sent + 1) e q (omega arith))
    where
      go :
          (r : Result (Unit {0})) (e : Dispatcher C R)
          → Does d (label parse_qid x d) (r, e)
          → Post (Within (d.queries_sent + 1)) (r, e)
          → ((e : Dispatcher C R)
              → Within (sent + 1) e
              → Reaches (view e) (run_loop source parse_qid xs e))
          → Reaches
              (view d)
              (◌>>◌ (λ (_ : Dispatcher C R). (r, e)) (run_loop source parse_qid xs) d)
      go (ok u) e s q rest =
          Reaches-earlier (view d) (view e) (label parse_qid x d) (run_loop source parse_qid xs e) s
            (rest e (q.0, omega arith))
      go (err y) e s q rest = (view d, stay (view d), s)

  -- A session that returned has gone from a full window to what is left by steps of the abstract
  -- session. One that threw had not filled its window, or took such steps and then sent nothing.
  abbrev pub Runs : ℕ → Result (Unit {0}) × Dispatcher C R → Type 0
  Runs w (ok _, e) = Steps (initial w) (view e)
  Runs w (err _, e) =
      (e.queries_sent < w) ⊎ ((v : Window) × Steps (initial w) v × (e.queries_sent ≡ v.sent))

  -- `run` of a fresh dispatcher is a session of the abstract kind, from the window with the ids of
  -- the first queries, for every source, every pattern of failing calls of the manager and every
  -- sequence of callbacks, as long as the 64-bit counter of queries does not wrap.
  pub run-Runs :
      (source : Source C R) (parse_qid : Text → Option ℕ) (now later : ℕ) (xs : List Delivery)
      (d : Dispatcher C R)
      → IsFresh d
      → d.window + length xs < u64_mod
      → Runs d.window (run source parse_qid now xs later d)
  unfolding run
  run-Runs source parse_qid now later xs d fresh small =
      go (start_session source now d).0 (start_session source now d).1
        (start_session-Opens source now d fresh (omega arith))
        (start_session-Finished source now d fresh (omega arith))
    where
      finish : Method C R
      finish = modify (λ (e : Dispatcher C R). record e { end_time = some later })

      done_loop :
          (r : Result (Unit {0})) (e f : Dispatcher C R)
          → Reaches (initial d.window) (r, e)
          → Runs d.window (◌>>◌ (λ (_ : Dispatcher C R). (r, e)) finish f)
      done_loop (ok u) e f p = p
      done_loop (err x) e f p = inr p

      go :
          (r : Result (Unit {0})) (e : Dispatcher C R)
          → Opens d.window (r, e)
          → Post (Within d.window) (r, e)
          → Runs d.window
              (◌>>◌ (λ (_ : Dispatcher C R). (r, e)) (run_loop source parse_qid xs >> finish) d)
      go (ok u) e same p =
          done_loop (run_loop source parse_qid xs e).0 (run_loop source parse_qid xs e).1 e (
            subst (λ (v : Window). Reaches v (run_loop source parse_qid xs e)) (sym same)
              (run_loop-Reaches source parse_qid xs d.window e p small))
      go (err x) e same p = inl same
