-- ===== src/Dispatcher/Drain.antt =====
-- The end of a session of src/lib/dispatcher.cc: once the session timer has expired, each answer or
-- timeout of an outstanding query takes one query off the list, and the last of them stops the
-- manager.
pub mod Steps
pub mod Whole
use queryperfpp.Base.{
  ℕ, suc, ◌<◌, ◌≡◌, ◌≢◌, refl, sym, ap, subst, ◌∙◌, Bool, true, false, Option, none, some, List, [],
  ◌∷◌, ◌++◌, map, arith, length, length-append, Text, Result, ok, err, if_both, ◌>>◌,
}
use queryperfpp.Dispatcher.Types.{Method, Source, QueryEvent, Dispatcher}
use queryperfpp.Dispatcher.Query.{record_call}
use queryperfpp.Dispatcher.Loop.{
  tcp_null, session_timeout, owns_socket, tcp_response, parsed, response, response_callback,
  Delivery, Split, find_if, match_response, is_event, query_timeout, deliver, on_event,
  query_timer_callback, restart_query, restart_found, drop_event, count_completed,
}
use queryperfpp.Dispatcher.Loop.Find.{Finds, Fail, find_if-Finds, length-middle}
use queryperfpp.Dispatcher.Invariant.Callbacks.{cleared, socket_cleared, clear_socket_of-ok}
use queryperfpp.Dispatcher.Session.{run_loop, unless}
use Steps.{Draining, DrainsTo, IsReadable, timer-DrainsTo, tcp-DrainsTo, restart-DrainsTo}

module _ {C R : Type 0} where
  -- A callback that is for an outstanding query, and finds a header in its bytes.
  abbrev pub Concerns : (Text → Option ℕ) → Delivery → Dispatcher C R → Type 0
  Concerns parse_qid (response bytes) d =
      (qid : ℕ) × (parse_qid bytes ≡ some qid) × (find_if (match_response qid) d.outstanding ≢ none)
  Concerns parse_qid (tcp_response ident bytes) d =
      (find_if (owns_socket ident) d.outstanding ≢ none) × IsReadable parse_qid bytes
  Concerns parse_qid (query_timeout ident) d = find_if (is_event ident) d.outstanding ≢ none
  Concerns parse_qid (tcp_null ident) d = ⊥
  Concerns parse_qid session_timeout d = ⊥

  -- Each of the callbacks is, when it comes.
  abbrev pub AllConcern : Source C R → (Text → Option ℕ) → List Delivery → Dispatcher C R → Type 0
  AllConcern source parse_qid [] d = Unit
  AllConcern source parse_qid (x ∷ xs) d =
      Concerns parse_qid x d × AllConcern source parse_qid xs (deliver source parse_qid x d).1

  on_event-DrainsTo :
      (k : Split (QueryEvent C) → Method C R) (p : QueryEvent C → Bool) (n : ℕ) (d : Dispatcher C R)
      → find_if p d.outstanding ≢ none
      → ((s : Split (QueryEvent C))
          → d.outstanding ≡ s.before ++ s.found ∷ s.after
          → p s.found ≡ true
          → DrainsTo n (k s d))
      → DrainsTo n (on_event k (find_if p d.outstanding) d)
  unfolding on_event
  on_event-DrainsTo k p n d h w = go (find_if p d.outstanding) h (find_if-Finds p d.outstanding)
    where
      go :
          (o : Option (Split (QueryEvent C)))
          → o ≢ none
          → Finds p d.outstanding o
          → DrainsTo n (on_event k o d)
      go none h f = absurd (h refl)
      go (some s) h f = w s f.0 f.1

  response-DrainsTo :
      (source : Source C R) (parse_qid : Text → Option ℕ) (bytes : Text) (qid n : ℕ)
      (d : Dispatcher C R)
      → Draining (suc n) d
      → parse_qid bytes ≡ some qid
      → find_if (match_response qid) d.outstanding ≢ none
      → DrainsTo n (response_callback source parse_qid bytes d)
  unfolding response_callback parsed
  response-DrainsTo source parse_qid bytes qid n d v e h = rw e (
      go (find_if (match_response qid) d.outstanding) h
        (find_if-Finds (match_response qid) d.outstanding))
    where
      go :
          (o : Option (Split (QueryEvent C)))
          → o ≢ none
          → Finds (match_response qid) d.outstanding o
          → DrainsTo n (restart_query source qid true d)
      go none h f = absurd (h refl)
      go (some s) h f = restart-DrainsTo source true qid n d s.before s.found s.after v f.0 f.1

  deliver-DrainsTo :
      (source : Source C R) (parse_qid : Text → Option ℕ) (x : Delivery) (n : ℕ)
      (d : Dispatcher C R)
      → Draining (suc n) d
      → Concerns parse_qid x d
      → DrainsTo n (deliver source parse_qid x d)
  unfolding deliver
  deliver-DrainsTo source parse_qid (response bytes) n d v (qid, e, h) =
      response-DrainsTo source parse_qid bytes qid n d v e h
  deliver-DrainsTo source parse_qid (tcp_response ident bytes) n d v (h, fine) =
      on_event-DrainsTo _ (owns_socket ident) n d h
        λ s e p. tcp-DrainsTo source n s d v e parse_qid bytes (ground arith) fine
  deliver-DrainsTo source parse_qid (query_timeout ident) n d v h =
      on_event-DrainsTo _ (is_event ident) n d h λ s e p. timer-DrainsTo source n s d v e
  deliver-DrainsTo source parse_qid (tcp_null ident) n d v h = elim h [ ]
  deliver-DrainsTo source parse_qid session_timeout n d v h = elim h [ ]

  -- When the session timer has expired, the answers and the timeouts of the outstanding queries, in
  -- any order and over UDP or TCP, end the event loop: none of them throws, no query is left, and
  -- the manager is stopped.
  pub run_loop-DrainsTo :
      (source : Source C R) (parse_qid : Text → Option ℕ) (xs : List Delivery) (d : Dispatcher C R)
      → Draining (length xs) d
      → AllConcern source parse_qid xs d
      → DrainsTo 0 (run_loop source parse_qid xs d)
  unfolding run_loop unless
  run_loop-DrainsTo source parse_qid [] d v all = v
  run_loop-DrainsTo source parse_qid (x ∷ xs) d v all =
      subst
        (λ (b : Bool).
          DrainsTo 0 (unless b (deliver source parse_qid x >> run_loop source parse_qid xs) d))
        (sym (v.goes_on (omega arith)))
        (go (deliver source parse_qid x d).0 (deliver source parse_qid x d).1
          (deliver-DrainsTo source parse_qid x (length xs) d v all.0)
          λ w. run_loop-DrainsTo source parse_qid xs _ w all.1)
    where
      go :
          (r : Result (Unit {0})) (e : Dispatcher C R)
          → DrainsTo (length xs) (r, e)
          → (Draining (length xs) e → DrainsTo 0 (run_loop source parse_qid xs e))
          → DrainsTo 0 (◌>>◌ (λ (_ : Dispatcher C R). (r, e)) (run_loop source parse_qid xs) d)
      go (ok _) e w rest = rest w
      go (err _) e w rest = elim w [ ]
