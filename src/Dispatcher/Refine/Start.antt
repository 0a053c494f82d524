-- ===== src/Dispatcher/Refine/Start.antt =====
-- The first queries of `Dispatcher::run` of src/lib/dispatcher.cc open the window of the abstract
-- session.
use mathlib.Core.List.{map-append, append-nil, append_assoc}
use queryperfpp.Base.{
  ℕ, suc, ◌+◌, ◌<◌, ◌≡◌, refl, sym, ap, subst, ◌∙◌, Bool, true, List, [], ◌∷◌, ◌++◌, arith, length,
  assertion, socket_failure, timer_failure, Result, ok, err, Error, modify, throw_if, ◌>>◌,
}
use queryperfpp.Dispatcher.Types.{
  Call, create_udp, start_session_timer, Method, Source, QueryEvent, Dispatcher, Focus,
}
use queryperfpp.Dispatcher.Query.{u64_mod, dispatch_query, manage}
use queryperfpp.Dispatcher.Query.Effect.{
  Keeps, Counts, dispatch_query-Preserves, dispatch_query-Counts,
}
use queryperfpp.Dispatcher.Session.{open_session, first_queries, make_pool, send_all, start_session}
use queryperfpp.Dispatcher.Numbering.{qids, to_qid}
use queryperfpp.Dispatcher.Spec.{bag_of, first_ids, initial}
use queryperfpp.Dispatcher.Invariant.{Post}
use queryperfpp.Dispatcher.Invariant.Session.{
  IsFresh, Starting, Starting-step, Quiet, open_session-Quiet, length-make_pool,
}
use queryperfpp.Dispatcher.Refine.{view, window_path}

module _ {C R : Type 0} where
  -- What the first queries leave: exactly them in the window, in order. If one throws, those before
  -- it were sent.
  abbrev pub Opens : ℕ → Result (Unit {0}) × Dispatcher C R → Type 0
  Opens w (ok _, e) = initial w ≡ view e
  Opens w (err _, e) = e.queries_sent < w

  send_all-Opens :
      (source : Source C R) (w n : ℕ) (sent events : List (QueryEvent C)) (d : Dispatcher C R)
      → n + length events ≡ w
      → w < u64_mod
      → Starting n w d
      → qids sent ++ first_ids n (length events) ≡ first_ids 0 w
      → Opens w (send_all source sent events d)
  unfolding send_all
  send_all-Opens source w n sent [] d m small st ids =
      window_path _ _ _ _ _ _ _ _ (ground arith) (sym st.completed) (sym st.sending)
        (ap bag_of (sym ids ∙ append-nil (qids sent)))
  send_all-Opens source w n sent (e ∷ events) d m small st ids =
      go (dispatch_query source first).0 (dispatch_query source first).1
        (dispatch_query-Preserves source first) (dispatch_query-Counts source first)
        λ g next id.
          send_all-Opens source w (suc n) (sent ++ g.event ∷ []) events g.disp (omega arith) small
            next
            (ap (λ (xs : List ℕ). xs ++ first_ids (suc n) (length events))
                (map-append (λ (z : QueryEvent C). z.qid) sent (g.event ∷ []))
              ∙ append_assoc (qids sent) (g.event.qid ∷ []) (first_ids (suc n) (length events))
              ∙ ap (λ (q : ℕ). qids sent ++ q ∷ first_ids (suc n) (length events)) id
              ∙ ids)
    where
      first : Focus C R
      first = record { event = e; disp = d }

      go :
          (r : Result (Unit {0})) (g : Focus C R)
          → Keeps first g
          → Counts first (r, g)
          → ((h : Focus C R)
              → Starting (suc n) w h.disp
              → h.event.qid ≡ to_qid n
              → Opens w (send_all source (sent ++ h.event ∷ []) events h.disp))
          → Opens w (elim r [
            | err x ↦ (err x, record (g.disp) { outstanding = sent ++ g.event ∷ events })
            | ok _ ↦ send_all source (sent ++ g.event ∷ []) events g.disp
          ])
      go (err x) g k c rest = ground arith
      go (ok u) g k c rest = rest g (Starting-step n w first g (omega arith) st k c) (c.0 ∙ st.id)

  -- A method that sends no query.
  abbrev SendsNone : Method C R → Type 0
  SendsNone m = (d : Dispatcher C R) → (m d).1.queries_sent ≡ d.queries_sent

  then-SendsNone : (m k : Method C R) → SendsNone m → SendsNone k → SendsNone (m >> k)
  then-SendsNone m k p q d = go (m d).0 (m d).1 (p d)
    where
      go :
          (r : Result (Unit {0})) (e : Dispatcher C R)
          → e.queries_sent ≡ d.queries_sent
          → (◌>>◌ (λ (_ : Dispatcher C R). (r, e)) k d).1.queries_sent ≡ d.queries_sent
      go (ok u) e h = q e ∙ h
      go (err x) e h = h

  manage-SendsNone : (c : Call) (e : Error) → SendsNone (manage c e)
  unfolding manage
  manage-SendsNone c e d = ground arith

  open_session-SendsNone : SendsNone open_session
  unfolding open_session
  open_session-SendsNone d =
      then-SendsNone (manage (create_udp d.server_address d.server_port) socket_failure)
        (modify (λ (e : Dispatcher C R). record e { udp_socket = true; session_timer = true })
          >> manage (start_session_timer d.test_duration) timer_failure)
        (manage-SendsNone _ _)
        (then-SendsNone
          (modify (λ (e : Dispatcher C R). record e { udp_socket = true; session_timer = true }))
          (manage (start_session_timer d.test_duration) timer_failure) (λ e. refl)
          (manage-SendsNone _ _))
        d

  module _ (source : Source C R) (now : ℕ) where
    first_queries-Opens :
        (w : ℕ) (d : Dispatcher C R)
        → w < u64_mod
        → Quiet w d
        → Opens w (first_queries source now d)
    unfolding first_queries
    first_queries-Opens w d small (st, nil) = rw nil (
        send_all-Opens source w 0 [] (make_pool source 0 d.window) _
          (omega (arith, length-make_pool source 0 d.window, st.window)) small (ground arith)
          (ap (first_ids 0) (length-make_pool source 0 d.window ∙ st.window)))

    pub start_session-Opens :
        (d : Dispatcher C R)
        → IsFresh d
        → d.window < u64_mod
        → Opens d.window (start_session source now d)
    unfolding start_session
    start_session-Opens d fresh small =
        subst
          (λ (b : Bool).
            Opens d.window ((throw_if b assertion >> (open_session >> first_queries source now)) d))
          (sym fresh.no_socket)
          (go (open_session d).0 (open_session d).1 (open_session-Quiet d.window d (ground arith))
            (open_session-SendsNone d))
      where
        go :
            (r : Result (Unit {0})) (e : Dispatcher C R)
            → Post (Quiet d.window) (r, e)
            → e.queries_sent ≡ d.queries_sent
            → Opens d.window (◌>>◌ (λ (_ : Dispatcher C R). (r, e)) (first_queries source now) d)
        go (ok u) e q same = first_queries-Opens d.window e small q
        go (err x) e q same = ground (arith, fresh.unsent, fresh.window_open)
