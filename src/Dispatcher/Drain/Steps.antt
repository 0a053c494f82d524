-- ===== src/Dispatcher/Drain/Steps.antt =====
-- The end of a session of src/lib/dispatcher.cc, one callback at a time: once the session timer has
-- expired, the answer or the timeout of an outstanding query takes one query off the list.
use queryperfpp.Base.{
  is_nil, pure, not, ℕ, suc, ◌<◌, ◌≡◌, ◌≢◌, refl, sym, ap, subst, ◌∙◌, Bool, true, false, Option,
  none, some, List, [], ◌∷◌, ◌++◌, arith, length, length-append, Text, Result, ok, err, if_both,
  ◌>>◌,
}
use queryperfpp.Dispatcher.Types.{Method, Source, QueryEvent, Dispatcher}
use queryperfpp.Dispatcher.Query.{record_call}
use queryperfpp.Dispatcher.Loop.{
  parsed, response_tcp_callback, clear_socket_of, parse_tcp, Split, find_if, match_response,
  query_timer_callback, restart_query, restart_found, drop_event, count_completed,
}
use queryperfpp.Dispatcher.Loop.Find.{Finds, Fail, find_if-Finds, length-middle}
use queryperfpp.Dispatcher.Invariant.Callbacks.{cleared, socket_cleared, clear_socket_of-ok}

-- An element that passes is not missed.
Fail-hit :
    {A : Type 0} (p : A → Bool) (xs : List A) (y : A) (ys : List A)
    → Fail p (xs ++ y ∷ ys)
    → p y ≡ false
Fail-hit p [] y ys f = f.0
Fail-hit p (x ∷ xs) y ys f = Fail-hit p xs y ys f.1

-- A response over TCP with no bytes, or with a header.
abbrev pub IsReadable : (Text → Option ℕ) → Text → Type 0
IsReadable parse_qid bytes = bytes ≢ [] → parse_qid bytes ≢ none

module _ {C R : Type 0} where
  -- A dispatcher that sends no more, with `n` queries outstanding; the manager is stopped if there are
  -- none.
  pub record Draining (n : ℕ) (d : Dispatcher C R) : Type 0 where
    pub ended : d.keep_sending ≡ false
    pub left : length d.outstanding ≡ n
    pub stops : n ≡ 0 → d.manager.stopped ≡ true
    pub goes_on : 0 < n → d.manager.stopped ≡ false

  dropped-Draining :
      (answered : Bool) (n : ℕ) (d : Dispatcher C R) (s : Split (QueryEvent C))
      → Draining (suc n) d
      → d.outstanding ≡ s.before ++ s.found ∷ s.after
      → Draining n (drop_event s (count_completed answered d))
  unfolding drop_event count_completed
  dropped-Draining answered n d s v e =
      ground (
        arith,
        ap length e ∙ length-middle s.before s.found s.after,
        length-append s.before s.after,
      )

  -- A method that returns, with `n` queries left.
  abbrev pub DrainsTo : ℕ → Result (Unit {0}) × Dispatcher C R → Type 0
  DrainsTo n (ok _, d) = Draining n d
  DrainsTo n (err e, d) = ⊥

  count_completed-keep_sending :
      (answered : Bool) (d : Dispatcher C R)
      → (count_completed answered d).keep_sending ≡ d.keep_sending
  unfolding count_completed
  count_completed-keep_sending answered d = ground arith

  pub restart-DrainsTo :
      (source : Source C R) (answered : Bool) (qid n : ℕ) (d : Dispatcher C R)
      (xs : List (QueryEvent C)) (y : QueryEvent C) (ys : List (QueryEvent C))
      → Draining (suc n) d
      → d.outstanding ≡ xs ++ y ∷ ys
      → match_response qid y ≡ true
      → DrainsTo n (restart_query source qid answered d)
  unfolding restart_query restart_found
  restart-DrainsTo source answered qid n d xs y ys v e h =
      go (find_if (match_response qid) d.outstanding)
        (find_if-Finds (match_response qid) d.outstanding)
    where
      go :
          (o : Option (Split (QueryEvent C)))
          → Finds (match_response qid) d.outstanding o
          → DrainsTo n (restart_found source answered o d)
      go none f = absurd (cc (Fail-hit (match_response qid) xs y ys (rw e at f), h))
      go (some s) f =
          if_both (DrainsTo n) (count_completed answered d).keep_sending
            (λ on. absurd (cc (count_completed-keep_sending answered d, v.ended, on)))
            (λ _. dropped-Draining answered n d s v f.0)

  cleared-Draining :
      (n : ℕ) (s : Split (QueryEvent C)) (d : Dispatcher C R)
      → Draining (suc n) d
      → d.outstanding ≡ s.before ++ s.found ∷ s.after
      → Draining (suc n) (socket_cleared s d)
  unfolding socket_cleared record_call
  cleared-Draining n s d v e = ground (
    arith,
    ap length e ∙ length-middle s.before s.found s.after,
    length-middle s.before (cleared s.found) s.after,
  )

  cleared-outstanding :
      (s : Split (QueryEvent C)) (d : Dispatcher C R)
      → (socket_cleared s d).outstanding ≡ s.before ++ cleared s.found ∷ s.after
  unfolding socket_cleared record_call
  cleared-outstanding s d = refl

  parse_tcp-ok :
      (parse_qid : Text → Option ℕ) (bytes : Text) (d : Dispatcher C R)
      → IsReadable parse_qid bytes
      → parse_tcp parse_qid bytes d ≡ (ok tt, d)
  unfolding parse_tcp parsed
  parse_tcp-ok parse_qid [] d h = refl
  parse_tcp-ok parse_qid (c ∷ t) d h = go (parse_qid (c ∷ t)) (h (λ e. cc))
    where
      go : (o : Option ℕ) → o ≢ none → parsed {C = C} {R = R} o (λ _. pure tt) d ≡ (ok tt, d)
      go none e = absurd (e refl)
      go (some qid) e = refl

  -- Behind a step that returned.
  after_step :
      (n : ℕ) (d : Dispatcher C R) (m : Method C R) (d' : Dispatcher C R) (k : Method C R)
      → m d ≡ (ok tt, d')
      → DrainsTo n (k d')
      → DrainsTo n ((m >> k) d)
  after_step n d m d' k h w =
      subst
        (λ (r : Result (Unit {0}) × Dispatcher C R).
          DrainsTo n (◌>>◌ (λ (_ : Dispatcher C R). r) k d))
        (sym h) w

  module _ (source : Source C R) (n : ℕ) (s : Split (QueryEvent C)) (d : Dispatcher C R)
      (v : Draining (suc n) d) (e : d.outstanding ≡ s.before ++ s.found ∷ s.after) where
    without_socket-DrainsTo :
        (answered : Bool)
        → DrainsTo n (restart_query source s.found.qid answered (socket_cleared s d))
    without_socket-DrainsTo answered =
        restart-DrainsTo source answered s.found.qid n (socket_cleared s d) s.before
          (cleared s.found) s.after (cleared-Draining n s d v e) (cleared-outstanding s d)
          (ground arith)

    pub timer-DrainsTo : DrainsTo n (query_timer_callback source s d)
    unfolding query_timer_callback
    timer-DrainsTo =
        if_both (DrainsTo n) s.found.tcp_sock
          (λ sock.
            after_step n d (clear_socket_of s) (socket_cleared s d)
              (restart_query source s.found.qid false) (clear_socket_of-ok s d sock)
              (without_socket-DrainsTo false))
          (λ _.
            restart-DrainsTo source false s.found.qid n d s.before s.found s.after v e
              (ground arith))

    pub tcp-DrainsTo :
        (parse_qid : Text → Option ℕ) (bytes : Text)
        → s.found.tcp_sock ≡ true
        → IsReadable parse_qid bytes
        → DrainsTo n (response_tcp_callback source parse_qid bytes s d)
    unfolding response_tcp_callback
    tcp-DrainsTo parse_qid bytes sock fine =
        let restart : Method C R = restart_query source s.found.qid (not (is_nil bytes)) in
        after_step n d (clear_socket_of s) (socket_cleared s d)
          (parse_tcp parse_qid bytes >> restart) (clear_socket_of-ok s d sock)
          (after_step n (socket_cleared s d) (parse_tcp parse_qid bytes) (socket_cleared s d)
            restart (parse_tcp-ok parse_qid bytes (socket_cleared s d) fine)
            (without_socket-DrainsTo (not (is_nil bytes))))
