-- ===== src/Dispatcher/Invariant/Callbacks.antt =====
-- The callbacks of src/lib/dispatcher.cc keep the invariant of the session.
use queryperfpp.Base.{
  undefined, throw, inr, inl, assertion, Bool-cases, err, ok, if_both, ℕ, ◌+◌, ◌<◌, ◌≡◌, refl, ap,
  Bool, true, false, not, Option, none, some, [], ◌∷◌, ◌++◌, arith, length, is_nil, Text, ◌>>◌,
}
use queryperfpp.Dispatcher.Types.{delete_tcp, Method, Source, QueryEvent, Dispatcher}
use queryperfpp.Dispatcher.Query.{record_call, u64_mod, clear_tcp_socket}
use queryperfpp.Dispatcher.Loop.{
  null_tcp_callback, tcp_null, Split, is_event, owns_socket, Delivery, response, tcp_response,
  query_timeout, session_timeout, restart_query, parsed, response_callback, clear_socket_of,
  parse_tcp, response_tcp_callback, query_timer_callback, session_timer_callback, on_event, deliver,
}
use queryperfpp.Dispatcher.Numbering.{IsNumbered, IsNumbered-replace}
use queryperfpp.Base.{subst}
use queryperfpp.Dispatcher.Loop.Find.{Finds, find_if-Finds, length-middle}
use queryperfpp.Dispatcher.Invariant.{
  set_outstanding, Inv, Post, Within, then-Post, restart_query-Ensures,
}

abbrev pub cleared : {C : Type 0} → QueryEvent C → QueryEvent C
cleared e = record e { tcp_sock = false }

module _ {C R : Type 0} where
  -- The invariant, with as many queries sent as before.
  abbrev Stays : ℕ → Dispatcher C R → Type 0
  Stays sent d = Inv d × (d.queries_sent ≡ sent)

  -- The socket of one event is cleared: the books and the numbers are those of before.
  replaced-Inv :
      (s : Split (QueryEvent C)) (d e : Dispatcher C R)
      → Inv d
      → d.outstanding ≡ s.before ++ s.found ∷ s.after
      → e.outstanding ≡ s.before ++ cleared s.found ∷ s.after
      → e.queries_sent ≡ d.queries_sent
      → e.queries_completed ≡ d.queries_completed
      → e.qid ≡ d.qid
      → e.keep_sending ≡ d.keep_sending
      → e.window ≡ d.window
      → e.manager.stopped ≡ d.manager.stopped
      → Inv e
  replaced-Inv s d e inv split split' sent completed qid on w stopped = record {
    books = ground (
      arith,
      inv.books,
      ap length split,
      ap length split',
      length-middle s.before s.found s.after,
      length-middle s.before (cleared s.found) s.after,
    );
    numbers =
        rw (sent, split')
          (IsNumbered-replace d.queries_sent s.before s.found s.after
            (subst (IsNumbered d.queries_sent) split inv.numbers) (cleared s.found) refl);
  }

  unfoldable pub socket_cleared : Split (QueryEvent C) → Dispatcher C R → Dispatcher C R
  unfolding record_call
  socket_cleared s d =
      set_outstanding (s.before ++ cleared s.found ∷ s.after)
        (record_call (delete_tcp s.found.ident) d)

  pub clear_socket_of-ok :
      (s : Split (QueryEvent C)) (d : Dispatcher C R)
      → s.found.tcp_sock ≡ true
      → clear_socket_of s d ≡ (ok tt, socket_cleared s d)
  unfolding clear_socket_of clear_tcp_socket socket_cleared
  clear_socket_of-ok s d e = rw e

  pub clear_socket_of-err :
      (s : Split (QueryEvent C)) (d : Dispatcher C R)
      → s.found.tcp_sock ≡ false
      → clear_socket_of s d ≡ (err assertion, set_outstanding (s.before ++ s.found ∷ s.after) d)
  unfolding clear_socket_of clear_tcp_socket
  clear_socket_of-err s d e = rw e

  pub socket_cleared-Inv :
      (s : Split (QueryEvent C)) (d : Dispatcher C R)
      → Inv d
      → d.outstanding ≡ s.before ++ s.found ∷ s.after
      → Inv (socket_cleared s d)
  unfolding socket_cleared
  socket_cleared-Inv s d inv split = replaced-Inv s d _ inv split refl refl refl refl refl refl refl

  socket_cleared-sent :
      (s : Split (QueryEvent C)) (d : Dispatcher C R)
      → (socket_cleared s d).queries_sent ≡ d.queries_sent
  unfolding socket_cleared
  socket_cleared-sent s d = refl

  clear_socket_of-Stays :
      (s : Split (QueryEvent C)) (d : Dispatcher C R)
      → Inv d
      → d.outstanding ≡ s.before ++ s.found ∷ s.after
      → Post (Stays d.queries_sent) (clear_socket_of s d)
  clear_socket_of-Stays s d inv split = elim (Bool-cases s.found.tcp_sock) [
    | inl e ↦
        rw (clear_socket_of-ok s d e) (socket_cleared-Inv s d inv split, socket_cleared-sent s d)
    | inr e ↦ rw (clear_socket_of-err s d e) (omega (arith, inv.books))
  ]

  parse_tcp-Stays :
      (parse_qid : Text → Option ℕ) (bytes : Text) (d : Dispatcher C R)
      → Inv d
      → Post (Stays d.queries_sent) (parse_tcp parse_qid bytes d)
  unfolding parse_tcp
  parse_tcp-Stays parse_qid [] d inv = (inv, refl)
  parse_tcp-Stays parse_qid (c ∷ t) d inv = ground arith

  restart_at :
      (source : Source C R) (sent qid : ℕ) (answered : Bool) (d : Dispatcher C R)
      → sent + 1 < u64_mod
      → Inv d
      → d.queries_sent ≡ sent
      → Post (Within (sent + 1)) (restart_query source qid answered d)
  restart_at source sent qid answered d small inv e =
      rw (← e) (restart_query-Ensures source d qid answered inv (rw e small))

  response_callback-Ensures :
      (source : Source C R) (parse_qid : Text → Option ℕ) (bytes : Text) (d : Dispatcher C R)
      → Inv d
      → d.queries_sent + 1 < u64_mod
      → Post (Within (d.queries_sent + 1)) (response_callback source parse_qid bytes d)
  unfolding response_callback parsed
  response_callback-Ensures source parse_qid bytes d inv small = go (parse_qid bytes)
    where
      go :
          (o : Option ℕ)
          → Post (Within (d.queries_sent + 1)) (parsed o (λ qid. restart_query source qid true) d)
      go none = omega arith
      go (some qid) = restart_query-Ensures source d qid true inv small

  module _ (source : Source C R) (s : Split (QueryEvent C)) (d : Dispatcher C R) (inv : Inv d)
      (split : d.outstanding ≡ s.before ++ s.found ∷ s.after)
      (small : d.queries_sent + 1 < u64_mod) where
    tcp-Ensures :
        (parse_qid : Text → Option ℕ) (bytes : Text)
        → Post (Within (d.queries_sent + 1)) (response_tcp_callback source parse_qid bytes s d)
    unfolding response_tcp_callback
    tcp-Ensures parse_qid bytes =
        let restart : Method C R = restart_query source s.found.qid (not (is_nil bytes)) in
        then-Post (Stays d.queries_sent) (Within (d.queries_sent + 1)) (clear_socket_of s)
          (parse_tcp parse_qid bytes >> restart) d (clear_socket_of-Stays s d inv split)
          λ e (i, p).
            then-Post (Stays d.queries_sent) (Within (d.queries_sent + 1))
              (parse_tcp parse_qid bytes) restart e (rw (← p) (parse_tcp-Stays parse_qid bytes e i))
              λ e' (i', p'). restart_at source d.queries_sent _ _ e' small i' p'

    null_tcp-Ensures : Post (Within (d.queries_sent + 1)) (null_tcp_callback s d)
    unfolding null_tcp_callback
    null_tcp-Ensures =
        then-Post (Stays d.queries_sent) (Within (d.queries_sent + 1)) (clear_socket_of s)
          (throw undefined) d (clear_socket_of-Stays s d inv split)
          λ e (i, p). omega (arith, i.books)

    timer-Ensures : Post (Within (d.queries_sent + 1)) (query_timer_callback source s d)
    unfolding query_timer_callback
    timer-Ensures =
        if_both (Post (Within (d.queries_sent + 1))) s.found.tcp_sock
          (λ _.
            then-Post (Stays d.queries_sent) (Within (d.queries_sent + 1)) (clear_socket_of s)
              (restart_query source s.found.qid false) d (clear_socket_of-Stays s d inv split)
              λ e (i, p). restart_at source d.queries_sent _ _ e small i p)
          (λ _. restart_query-Ensures source d _ false inv small)

  session_timer-Ensures :
      (d : Dispatcher C R) → Inv d → Post (Within (d.queries_sent + 1)) (session_timer_callback d)
  unfolding session_timer_callback
  session_timer-Ensures d inv = ground arith

  on_event-Ensures :
      (k : Split (QueryEvent C) → Method C R) (p : QueryEvent C → Bool)
      (o : Option (Split (QueryEvent C))) (d : Dispatcher C R)
      → Inv d
      → Finds p d.outstanding o
      → ((s : Split (QueryEvent C))
          → d.outstanding ≡ s.before ++ s.found ∷ s.after
          → Post (Within (d.queries_sent + 1)) (k s d))
      → Post (Within (d.queries_sent + 1)) (on_event k o d)
  unfolding on_event
  on_event-Ensures k p none d inv f h = (inv, omega arith)
  on_event-Ensures k p (some s) d inv f h = h s f.0

  -- Every callback of the message manager keeps the invariant and sends at most one query, if it
  -- returns; if it throws, no more queries are completed than sent.
  pub deliver-Ensures :
      (source : Source C R) (parse_qid : Text → Option ℕ) (x : Delivery) (d : Dispatcher C R)
      → Inv d
      → d.queries_sent + 1 < u64_mod
      → Post (Within (d.queries_sent + 1)) (deliver source parse_qid x d)
  unfolding deliver
  deliver-Ensures source parse_qid (response bytes) d inv small =
      response_callback-Ensures source parse_qid bytes d inv small
  deliver-Ensures source parse_qid (tcp_response ident bytes) d inv small =
      on_event-Ensures _ (owns_socket ident) _ d inv
        (find_if-Finds (owns_socket ident) d.outstanding)
        λ s e. tcp-Ensures source s d inv e small parse_qid bytes
  deliver-Ensures source parse_qid (tcp_null ident) d inv small =
      on_event-Ensures _ (owns_socket ident) _ d inv
        (find_if-Finds (owns_socket ident) d.outstanding)
        λ s e. null_tcp-Ensures source s d inv e small
  deliver-Ensures source parse_qid (query_timeout ident) d inv small =
      on_event-Ensures _ (is_event ident) _ d inv (find_if-Finds (is_event ident) d.outstanding)
        λ s e. timer-Ensures source s d inv e small
  deliver-Ensures source parse_qid session_timeout d inv small = session_timer-Ensures d inv
