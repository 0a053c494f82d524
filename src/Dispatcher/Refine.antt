-- ===== src/Dispatcher/Refine.antt =====
-- `restartQuery` of src/lib/dispatcher.cc does what the abstract session does.
pub mod Session
pub mod Start
pub mod Run
pub mod Agree
use mathlib.Core.Quot
use mathlib.Core.List.{map-append}
use queryperfpp.Base.{
  ℕ, suc, ◌+◌, ◌%◌, ◌<◌, ◌≡◌, refl, sym, ap, subst, ◌∙◌, Bool, true, false, not, Option, none, some,
  List, [], ◌∷◌, ◌++◌, map, arith, Text, Error, is_nil, Result, ok, err, if_both, ◌>>◌,
  if◌then◌else◌, ◌==◌,
}
use queryperfpp.Dispatcher.Types.{Method, Source, QueryEvent, Dispatcher, Focus}
use queryperfpp.Dispatcher.Query.{u16_mod, u64_mod, dispatch_query}
use queryperfpp.Dispatcher.Query.Effect.{
  Keeps, Counts, dispatch_query-Preserves, dispatch_query-Counts,
}
use queryperfpp.Dispatcher.Loop.{
  Split, find_if, match_response, is_event, owns_socket, Delivery, response, tcp_response,
  query_timeout, session_timeout, restart_query, restart_found, put_back, drop_event,
  count_completed, splice_end,
}
use queryperfpp.Dispatcher.Loop.Find.{Fail, Finds, find_if-Finds}
use queryperfpp.Dispatcher.Numbering.{occurrences, occurrences-append, qids, to_qid}
use queryperfpp.Dispatcher.Spec.{
  Bag, bag_of, units, put, Window, Label, nothing, done, expired, completed_by, Step, idle, unknown,
  refill, retire, expire,
}
use queryperfpp.Dispatcher.Invariant.{Inv}

module _ {C : Type 0} where
  Fail-unknown :
      (qid : ℕ) (xs : List (QueryEvent C))
      → Fail (match_response qid) xs
      → occurrences qid (qids xs) ≡ 0
  Fail-unknown qid [] f = refl
  Fail-unknown qid (x ∷ xs) f = ground (arith, Fail-unknown qid xs f.1)

  occurrences-qids :
      (k : ℕ) (xs ys : List (QueryEvent C))
      → occurrences k (qids (xs ++ ys)) ≡ occurrences k (qids xs) + occurrences k (qids ys)
  occurrences-qids k xs ys =
      ap (occurrences k) (map-append (λ (e : QueryEvent C). e.qid) xs ys)
      ∙ occurrences-append k (qids xs) (qids ys)

  -- The bag of a list taken apart at an event, and of the list behind a restart.
  bag-middle :
      (xs : List (QueryEvent C)) (y : QueryEvent C) (ys : List (QueryEvent C))
      → bag_of (qids (xs ++ y ∷ ys)) ≡ put y.qid (bag_of (qids (xs ++ ys)))
  unfolding put
  bag-middle xs y ys =
      Quot.sound λ k. omega (arith, occurrences-qids k xs (y ∷ ys), occurrences-qids k xs ys)

  bag-moved :
      (xs : List (QueryEvent C)) (y : QueryEvent C) (ys : List (QueryEvent C))
      → bag_of (qids (y ∷ (ys ++ xs))) ≡ put y.qid (bag_of (qids (xs ++ ys)))
  unfolding put
  bag-moved xs y ys =
      Quot.sound λ k. omega (arith, occurrences-qids k ys xs, occurrences-qids k xs ys)

pub window_path :
    (sent sent' completed completed' : ℕ) (on on' : Bool) (b b' : Bag)
    → sent ≡ sent'
    → completed ≡ completed'
    → on ≡ on'
    → b ≡ b'
    → ◌≡◌ {A = Window}
        (record { sent = sent; completed = completed; sending = on; waiting = b })
        (record { sent = sent'; completed = completed'; sending = on'; waiting = b' })
window_path sent sent' completed completed' on on' b b' p q r e = cc

module _ {C R : Type 0} where
  -- What the abstract session sees of a dispatcher.
  abbrev pub view : Dispatcher C R → Window
  view d = record {
    sent = d.queries_sent;
    completed = d.queries_completed;
    sending = d.keep_sending;
    waiting = bag_of (qids d.outstanding);
  }

  -- What a method that returned has done; one that threw has sent nothing.
  abbrev pub Does : Dispatcher C R → Label → Result (Unit {0}) × Dispatcher C R → Type 0
  Does d l (ok _, e) = Step (view d) l (view e)
  Does d l (err _, e) = e.queries_sent ≡ d.queries_sent

  module _ (d : Dispatcher C R) (answered : Bool) (s : Split (QueryEvent C)) (inv : Inv d)
      (split : d.outstanding ≡ s.before ++ s.found ∷ s.after)
      (small : d.queries_sent + 1 < u64_mod) where
    abbrev others : Bag
    others = bag_of (qids (s.before ++ s.after))

    waiting : bag_of (qids d.outstanding) ≡ put s.found.qid others
    waiting =
        ap (λ (xs : List (QueryEvent C)). bag_of (qids xs)) split
        ∙ bag-middle s.before s.found s.after

    unsent :
        (e : Error) (g : Focus C R)
        → Counts (record { event = s.found; disp = count_completed answered d }) (err e, g)
        → (put_back s (err e, g)).1.queries_sent ≡ d.queries_sent
    unfolding put_back count_completed
    unsent e g c = ground arith

    abbrev refilled : Window
    refilled = record {
      sent = suc d.queries_sent;
      completed = completed_by answered d.queries_completed;
      sending = d.keep_sending;
      waiting = put (to_qid d.queries_sent) others;
    }

    refilled-view :
        (u : Unit {0}) (g : Focus C R)
        → Keeps (record { event = s.found; disp = count_completed answered d }) g
        → Counts (record { event = s.found; disp = count_completed answered d }) (ok u, g)
        → refilled ≡ view (put_back s (ok u, g)).1
    unfolding put_back splice_end count_completed
    refilled-view u g k c =
        window_path _ _ _ _ _ _ _ _ (ground (arith, inv.books)) (ground (arith, inv.books))
          (ground arith)
          (sym (
            bag-moved s.before g.event s.after
            ∙ ap (λ (q : ℕ). put q others) (ground (arith, inv.books))))

    put_back-Does :
        (r : Result (Unit {0})) (g : Focus C R)
        → d.keep_sending ≡ true
        → Keeps (record { event = s.found; disp = count_completed answered d }) g
        → Counts (record { event = s.found; disp = count_completed answered d }) (r, g)
        → Does d (done answered s.found.qid) (put_back s (r, g))
    unfolding put_back
    put_back-Does (ok u) g on k c =
        subst (Step (view d) (done answered s.found.qid)) (refilled-view u g k c)
          (refill (view d) answered s.found.qid others on waiting)
    put_back-Does (err e) g on k c = unsent e g c

    retired-view :
        ◌≡◌ {A = Window}
          (record (view d) {
            completed = completed_by answered d.queries_completed;
            waiting = others;
          })
          (view (drop_event s (count_completed answered d)))
    unfolding drop_event count_completed
    retired-view =
        window_path _ _ _ _ _ _ _ _ (ground arith) (ground (arith, inv.books)) (ground arith)
          (ap (λ (xs : List (QueryEvent C)). bag_of (qids xs)) (ground arith))

    drop_event-Does :
        d.keep_sending ≡ false
        → Step
            (view d)
            (done answered s.found.qid)
            (view (drop_event s (count_completed answered d)))
    drop_event-Does off =
        subst (Step (view d) (done answered s.found.qid)) retired-view
          (retire (view d) answered s.found.qid others off waiting)

    kept : (count_completed answered d).keep_sending ≡ d.keep_sending
    unfolding count_completed
    kept = ground arith

    found-Does :
        (source : Source C R)
        → Does d (done answered s.found.qid) (restart_found source answered (some s) d)
    unfolding restart_found
    found-Does source =
        let f : Focus C R = record { event = s.found; disp = count_completed answered d } in
        if_both (Does d (done answered s.found.qid)) (count_completed answered d).keep_sending
          (λ on.
            put_back-Does (dispatch_query source f).0 (dispatch_query source f).1 (sym kept ∙ on)
              (dispatch_query-Preserves source f) (dispatch_query-Counts source f))
          (λ off. drop_event-Does (sym kept ∙ off))

  pub restart_query-Does :
      (source : Source C R) (d : Dispatcher C R) (qid : ℕ) (answered : Bool)
      → Inv d
      → d.queries_sent + 1 < u64_mod
      → Does d (done answered qid) (restart_query source qid answered d)
  unfolding restart_query restart_found units
  restart_query-Does source d qid answered inv small =
      go (find_if (match_response qid) d.outstanding)
        (find_if-Finds (match_response qid) d.outstanding)
    where
      go :
          (o : Option (Split (QueryEvent C)))
          → Finds (match_response qid) d.outstanding o
          → Does d (done answered qid) (restart_found source answered o d)
      go none f = unknown (view d) answered qid (Fail-unknown qid d.outstanding f)
      go (some s) f =
          subst (λ (q : ℕ). Does d (done answered q) (restart_found source answered (some s) d))
            (ground arith) (found-Does d answered s inv f.0 small source)
