-- ===== src/Dispatcher/Loop/Kept.antt =====
-- What every callback of src/lib/dispatcher.cc keeps: enough is that its parts keep it, which are a
-- query that is sent again, an event that is erased and a socket that is deleted.
use queryperfpp.Base.{
  Gives, bind-Gives, ℕ, ◌≡◌, Bool, true, false, not, Option, none, some, [], ◌∷◌, ◌++◌, Text,
  is_nil, if_both, pure, throw, undefined, ◌>>◌,
}
use queryperfpp.Dispatcher.Types.{Method, Source, QueryEvent, Dispatcher}
use queryperfpp.Dispatcher.Query.{dispatch_query}
use queryperfpp.Dispatcher.Loop.{
  null_tcp_callback, tcp_null, Split, match_response, is_event, owns_socket, Delivery, response,
  tcp_response, query_timeout, session_timeout, deliver, on_event, parsed, response_callback,
  response_tcp_callback, query_timer_callback, session_timer_callback, parse_tcp, clear_socket_of,
  restart_query, restart_found, count_completed, put_back, drop_event,
}
use queryperfpp.Dispatcher.Loop.Find.{Finds, find_if-Finds}

module _ {C R : Type 0} where
  abbrev pub Behind : (Dispatcher C R → Type 0) → Unit {0} → Dispatcher C R → Type 0
  Behind Q _ d = Q d

  -- The parts of a callback: from `Before`, they keep it or end in `After`.
  pub record IsKept (source : Source C R) (Before After : Dispatcher C R → Type 0) : Type 0 where
    pub unchanged : (d : Dispatcher C R) → Before d → After d
    pub counted :
        (answered : Bool) (d : Dispatcher C R) → Before d → Before (count_completed answered d)
    pub ended : (d : Dispatcher C R) → Before d → After (record d { keep_sending = false })
    pub restarted :
        (s : Split (QueryEvent C)) (d : Dispatcher C R)
        → Before d
        → d.outstanding ≡ s.before ++ s.found ∷ s.after
        → Gives
            (Behind After)
            (put_back s (dispatch_query source (record { event = s.found; disp = d })))
    pub dropped :
        (s : Split (QueryEvent C)) (d : Dispatcher C R)
        → Before d
        → d.outstanding ≡ s.before ++ s.found ∷ s.after
        → After (drop_event s d)
    pub cleared :
        (s : Split (QueryEvent C)) (d : Dispatcher C R)
        → Before d
        → d.outstanding ≡ s.before ++ s.found ∷ s.after
        → Gives (Behind Before) (clear_socket_of s d)

  counted_split :
      (answered : Bool) (d : Dispatcher C R) (s : Split (QueryEvent C))
      → d.outstanding ≡ s.before ++ s.found ∷ s.after
      → (count_completed answered d).outstanding ≡ s.before ++ s.found ∷ s.after
  unfolding count_completed
  counted_split true d s split = split
  counted_split false d s split = split

  module _ (source : Source C R) (Before After : Dispatcher C R → Type 0)
      (kept : IsKept source Before After) where
    restart_query-Kept :
        (qid : ℕ) (answered : Bool) (d : Dispatcher C R)
        → Before d
        → Gives (Behind After) (restart_query source qid answered d)
    unfolding restart_query restart_found
    restart_query-Kept qid answered d p = go _ (find_if-Finds (match_response qid) d.outstanding)
      where
        go :
            (o : Option (Split (QueryEvent C)))
            → Finds (match_response qid) d.outstanding o
            → Gives (Behind After) (restart_found source answered o d)
        go none f = kept.unchanged d p
        go (some s) f =
            let d' = count_completed answered d in
            let p' = kept.counted answered d p in
            let split = counted_split answered d s f.0 in
            if_both (Gives (Behind After)) d'.keep_sending (λ _. kept.restarted s d' p' split)
              (λ _. kept.dropped s d' p' split)

    parsed-Kept :
        (Q : Dispatcher C R → Type 0) (k : ℕ → Method C R) (o : Option ℕ) (d : Dispatcher C R)
        → ((qid : ℕ) → Gives (Behind Q) (k qid d))
        → Gives (Behind Q) (parsed o k d)
    unfolding parsed
    parsed-Kept Q k none d h = tt
    parsed-Kept Q k (some qid) d h = h qid

    parse_tcp-Kept :
        (parse_qid : Text → Option ℕ) (bytes : Text) (d : Dispatcher C R)
        → Before d
        → Gives (Behind Before) (parse_tcp parse_qid bytes d)
    unfolding parse_tcp
    parse_tcp-Kept parse_qid [] d p = p
    parse_tcp-Kept parse_qid (c ∷ t) d p =
        parsed-Kept Before (λ _. pure tt) (parse_qid (c ∷ t)) d λ _. p

    -- A part of a callback, and the rest of it.
    after_part :
        (m k : Method C R) (d : Dispatcher C R)
        → Gives (Behind Before) (m d)
        → ((e : Dispatcher C R) → Before e → Gives (Behind After) (k e))
        → Gives (Behind After) ((m >> k) d)
    after_part m k d p h = bind-Gives (Behind Before) (Behind After) m (λ _. k) d p λ _. h

    module _ (s : Split (QueryEvent C)) (d : Dispatcher C R) (p : Before d)
        (split : d.outstanding ≡ s.before ++ s.found ∷ s.after) where
      response_tcp_callback-Kept :
          (parse_qid : Text → Option ℕ) (bytes : Text)
          → Gives (Behind After) (response_tcp_callback source parse_qid bytes s d)
      unfolding response_tcp_callback
      response_tcp_callback-Kept parse_qid bytes =
          let restart = restart_query source s.found.qid (not (is_nil bytes)) in
          after_part (clear_socket_of s) (parse_tcp parse_qid bytes >> restart) d
            (kept.cleared s d p split)
            λ e q.
              after_part (parse_tcp parse_qid bytes) restart e (parse_tcp-Kept parse_qid bytes e q)
                λ f r. restart_query-Kept s.found.qid (not (is_nil bytes)) f r

      null_tcp_callback-Kept : Gives (Behind After) (null_tcp_callback {R = R} s d)
      unfolding null_tcp_callback
      null_tcp_callback-Kept =
          after_part (clear_socket_of s) (throw undefined) d (kept.cleared s d p split) λ _ _. tt

      query_timer_callback-Kept : Gives (Behind After) (query_timer_callback source s d)
      unfolding query_timer_callback
      query_timer_callback-Kept =
          if_both (Gives (Behind After)) s.found.tcp_sock
            (λ _.
              after_part (clear_socket_of s) (restart_query source s.found.qid false) d
                (kept.cleared s d p split) λ e q. restart_query-Kept s.found.qid false e q)
            (λ _. restart_query-Kept s.found.qid false d p)

    on_event-Kept :
        (k : Split (QueryEvent C) → Method C R) (found : QueryEvent C → Bool)
        (o : Option (Split (QueryEvent C))) (d : Dispatcher C R)
        → Before d
        → Finds found d.outstanding o
        → ((s : Split (QueryEvent C))
            → d.outstanding ≡ s.before ++ s.found ∷ s.after
            → Gives (Behind After) (k s d))
        → Gives (Behind After) (on_event k o d)
    unfolding on_event
    on_event-Kept k found none d p f h = kept.unchanged d p
    on_event-Kept k found (some s) d p f h = h s f.0

    -- Every callback keeps what its parts keep.
    pub deliver-Kept :
        (parse_qid : Text → Option ℕ) (x : Delivery) (d : Dispatcher C R)
        → Before d
        → Gives (Behind After) (deliver source parse_qid x d)
    unfolding deliver response_callback session_timer_callback
    deliver-Kept parse_qid (response bytes) d p =
        parsed-Kept After (λ qid. restart_query source qid true) (parse_qid bytes) d
          λ qid. restart_query-Kept qid true d p
    deliver-Kept parse_qid (tcp_response ident bytes) d p =
        on_event-Kept (response_tcp_callback source parse_qid bytes) (owns_socket ident) _ d p
          (find_if-Finds (owns_socket ident) d.outstanding)
          λ s split. response_tcp_callback-Kept s d p split parse_qid bytes
    deliver-Kept parse_qid (tcp_null ident) d p =
        on_event-Kept null_tcp_callback (owns_socket ident) _ d p
          (find_if-Finds (owns_socket ident) d.outstanding)
          λ s split. null_tcp_callback-Kept s d p split
    deliver-Kept parse_qid (query_timeout ident) d p =
        on_event-Kept (query_timer_callback source) (is_event ident) _ d p
          (find_if-Finds (is_event ident) d.outstanding)
          λ s split. query_timer_callback-Kept s d p split
    deliver-Kept parse_qid session_timeout d p = kept.ended d p
