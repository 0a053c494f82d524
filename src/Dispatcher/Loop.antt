-- ===== src/Dispatcher/Loop.antt =====
-- The test session of src/lib/dispatcher.cc: `run`, the callbacks of the message manager, and
-- `restartQuery`.
pub mod Find
pub mod Kept
use queryperfpp.Base.{
  ℕ, ◌+◌, ◌%◌, Bool, true, false, not, ◌&&◌, Option, none, some, List, [], ◌∷◌, ◌++◌, Text, ◌==◌,
  is_nil, if◌then◌else◌, bogus_header, Result, ok, err, undefined, Action, pure, throw, ◌>>◌,
}
use queryperfpp.Dispatcher.Types.{Method, Source, QueryEvent, Dispatcher, Focus, delete_tcp}
use queryperfpp.Dispatcher.Query.{
  u64_mod, stop_manager, record_call, clear_tcp_socket, dispatch_query,
}

-- A list taken apart at an element.
pub record Split (A : Type 0) : Type 0 where
  pub before : List A
  pub found : A
  pub after : List A

abbrev pub cons_split : {A : Type 0} → A → Option (Split A) → Option (Split A)
cons_split x none = none
cons_split x (some s) = some (record s { before = x ∷ s.before })

-- `find_if`: the first element that passes.
unfoldable pub find_if : {A : Type 0} → (A → Bool) → List A → Option (Split A)
find_if p [] = none
find_if p (x ∷ xs) =
    if p x
    then some (record { before = []; found = x; after = xs })
    else cons_split x (find_if p xs)

-- What the message manager delivers. The callback of a timer or of a TCP socket comes only while the
-- event that owns it is in the list and, for a socket, has not deleted it. With
-- `tcp_null` a TCP socket gives a null pointer and a length that is not 0.
pub data Delivery : Type 0 where
  response : Text → Delivery
  tcp_response : ℕ → Text → Delivery
  tcp_null : ℕ → Delivery
  query_timeout : ℕ → Delivery
  session_timeout : Delivery

-- `matchResponse`, and the comparison of addresses that a callback's bound pointer stands for.
abbrev pub match_response : {C : Type 0} → ℕ → QueryEvent C → Bool
match_response qid e = e.qid == qid

abbrev pub is_event : {C : Type 0} → ℕ → QueryEvent C → Bool
is_event ident e = e.ident == ident

-- The event that holds the TCP socket.
abbrev pub owns_socket : {C : Type 0} → ℕ → QueryEvent C → Bool
owns_socket ident e = e.ident == ident && e.tcp_sock

-- `outstanding_.splice(qev_it, outstanding_, outstanding_.end())` names the end of the list as the
-- element to move, which the standard leaves undefined. In libstdc++ and libc++ the end is a node of
-- a ring, and is moved to before the event: the event becomes the first of the list, and those that
-- were before it come last.
unfoldable pub splice_end : {A : Type 0} → List A → A → List A → List A
splice_end before event after = event ∷ (after ++ before)

module _ {C R : Type 0} where
  abbrev pub set_outstanding : List (QueryEvent C) → Dispatcher C R → Dispatcher C R
  set_outstanding events d = record d { outstanding = events }

  -- The list behind `sendQuery`. An event whose sending threw is still in its place.
  unfoldable pub put_back :
      Split (QueryEvent C) → Result (Unit {0}) × Focus C R → Result (Unit {0}) × Dispatcher C R
  unfolding splice_end
  put_back s (ok u, f) = (ok u, set_outstanding (splice_end s.before f.event s.after) f.disp)
  put_back s (err e, f) = (err e, set_outstanding (s.before ++ f.event ∷ s.after) f.disp)

  -- `~QueryEvent`: its TCP socket goes with it.
  unfoldable pub delete_event : QueryEvent C → Dispatcher C R → Dispatcher C R
  unfolding record_call
  delete_event e d = if e.tcp_sock then record_call (delete_tcp e.ident) d else d

  -- `erase`, and `stop` behind the last.
  unfoldable pub drop_event : Split (QueryEvent C) → Dispatcher C R → Dispatcher C R
  unfolding stop_manager delete_event
  drop_event s d =
      let d' = set_outstanding (s.before ++ s.after) (delete_event s.found d) in
      if is_nil d'.outstanding then stop_manager d' else d'

  unfoldable pub count_completed : Bool → Dispatcher C R → Dispatcher C R
  count_completed answered d =
      if answered then record d { queries_completed = (d.queries_completed + 1) % u64_mod } else d

  -- `restartQuery` behind the search; `answered` is `response != NULL`.
  unfoldable pub restart_found : Source C R → Bool → Option (Split (QueryEvent C)) → Method C R
  restart_found source answered none d = (ok tt, d)
  restart_found source answered (some s) d =
      let d' = count_completed answered d in
      if d'.keep_sending
      then put_back s (dispatch_query source (record { event = s.found; disp = d' }))
      else (ok tt, drop_event s d')

  unfoldable pub restart_query : Source C R → ℕ → Bool → Method C R
  restart_query source qid answered d =
      restart_found source answered (find_if (match_response qid) d.outstanding) d

  -- `parse_qid` is `Message::parseHeader` followed by `getQid`; `none` if the header is bogus, which
  -- throws.
  unfoldable pub parsed : Option ℕ → (ℕ → Method C R) → Method C R
  parsed none k d = (err bogus_header, d)
  parsed (some qid) k d = k qid d

  -- `responseCallback`
  unfoldable pub response_callback : Source C R → (Text → Option ℕ) → Text → Method C R
  response_callback source parse_qid bytes =
      parsed (parse_qid bytes) (λ qid. restart_query source qid true)

  -- `clearTCPSocket` of an event of the list.
  unfoldable pub clear_socket_of : Split (QueryEvent C) → Method C R
  unfolding clear_tcp_socket
  clear_socket_of s d =
      let (r, f) = clear_tcp_socket (record { event = s.found; disp = d }) in
      (r, set_outstanding (s.before ++ f.event ∷ s.after) f.disp)

  -- The parse of a response over TCP; no bytes mean that the connection failed, or ended early.
  unfoldable pub parse_tcp : (Text → Option ℕ) → Text → Method C R
  unfolding parsed
  parse_tcp parse_qid [] = pure tt
  parse_tcp parse_qid (c ∷ t) = parsed (parse_qid (c ∷ t)) (λ _. pure tt)

  -- `responseTCPCallback`. The query is matched by the event's own id.
  unfoldable pub response_tcp_callback :
      Source C R → (Text → Option ℕ) → Text → Split (QueryEvent C) → Method C R
  response_tcp_callback source parse_qid bytes s = do
    clear_socket_of s
    parse_tcp parse_qid bytes
    restart_query source s.found.qid (not (is_nil bytes))

  -- `responseTCPCallback` with a null pointer and a length that is not 0: the parse reads from it.
  unfoldable pub null_tcp_callback : Split (QueryEvent C) → Method C R
  null_tcp_callback s = clear_socket_of s >> throw undefined

  -- `queryTimerCallback`
  unfoldable pub query_timer_callback : Source C R → Split (QueryEvent C) → Method C R
  query_timer_callback source s d =
      if s.found.tcp_sock
      then (clear_socket_of s >> restart_query source s.found.qid false) d
      else restart_query source s.found.qid false d

  -- `sessionTimerCallback`
  unfoldable pub session_timer_callback : Method C R
  session_timer_callback d = (ok tt, record d { keep_sending = false })

  -- A callback for an event that is not in the list any more is not made.
  unfoldable pub on_event :
      (Split (QueryEvent C) → Method C R) → Option (Split (QueryEvent C)) → Method C R
  on_event k none = pure tt
  on_event k (some s) = k s

  unfoldable pub deliver : Source C R → (Text → Option ℕ) → Delivery → Method C R
  deliver source parse_qid (response bytes) d = response_callback source parse_qid bytes d
  deliver source parse_qid (tcp_response ident bytes) d =
      on_event (response_tcp_callback source parse_qid bytes)
        (find_if (owns_socket ident) d.outstanding) d
  deliver source parse_qid (tcp_null ident) d =
      on_event null_tcp_callback (find_if (owns_socket ident) d.outstanding) d
  deliver source parse_qid (query_timeout ident) d =
      on_event (query_timer_callback source) (find_if (is_event ident) d.outstanding) d
  deliver source parse_qid session_timeout d = session_timer_callback d
