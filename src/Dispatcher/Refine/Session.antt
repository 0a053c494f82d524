-- ===== src/Dispatcher/Refine/Session.antt =====
-- The callbacks of src/lib/dispatcher.cc, and the event loop, do what the abstract session does.
use queryperfpp.Base.{
  undefined, throw, ℕ, ◌+◌, ◌<◌, ◌≡◌, refl, sym, ap, subst, ◌∙◌, Bool, true, false, not, Option,
  none, some, List, [], ◌∷◌, ◌++◌, arith, Text, is_nil, pure, Result, ok, err, if_both, ◌>>◌,
}
use queryperfpp.Dispatcher.Types.{Method, Source, QueryEvent, Dispatcher}
use queryperfpp.Dispatcher.Query.{u64_mod}
use queryperfpp.Dispatcher.Loop.{
  null_tcp_callback, tcp_null, Split, find_if, is_event, owns_socket, Delivery, response,
  tcp_response, query_timeout, session_timeout, deliver, on_event, parsed, response_callback,
  response_tcp_callback, query_timer_callback, session_timer_callback, parse_tcp, clear_socket_of,
  restart_query,
}
use queryperfpp.Dispatcher.Loop.Find.{Finds, find_if-Finds}
use queryperfpp.Dispatcher.Numbering.{qids}
use queryperfpp.Dispatcher.Spec.{bag_of, Window, Label, nothing, done, expired, Step, idle, expire}
use queryperfpp.Dispatcher.Invariant.{Inv}
use queryperfpp.Dispatcher.Invariant.Callbacks.{
  cleared, socket_cleared, clear_socket_of-ok, socket_cleared-Inv,
}
use queryperfpp.Dispatcher.Refine.{view, Does, restart_query-Does}

-- What a delivery means to the abstract session.
abbrev pub done_by : Bool → Option ℕ → Label
done_by answered none = nothing
done_by answered (some qid) = done answered qid

module _ {C : Type 0} where
  abbrev pub found_id : Option (Split (QueryEvent C)) → Option ℕ
  found_id none = none
  found_id (some s) = some s.found.qid

  qids-cleared :
      (xs : List (QueryEvent C)) (y : QueryEvent C) (ys : List (QueryEvent C))
      → qids (xs ++ cleared y ∷ ys) ≡ qids (xs ++ y ∷ ys)
  qids-cleared [] y ys = refl
  qids-cleared (x ∷ xs) y ys = ap (◌∷◌ x.qid) (qids-cleared xs y ys)

module _ {C R : Type 0} where
  abbrev pub label : (Text → Option ℕ) → Delivery → Dispatcher C R → Label
  label parse_qid (response bytes) d = done_by true (parse_qid bytes)
  label parse_qid (tcp_response ident bytes) d =
      done_by (not (is_nil bytes)) (found_id (find_if (owns_socket ident) d.outstanding))
  label parse_qid (tcp_null ident) d =
      done_by true (found_id (find_if (owns_socket ident) d.outstanding))
  label parse_qid (query_timeout ident) d =
      done_by false (found_id (find_if (is_event ident) d.outstanding))
  label parse_qid session_timeout d = expired

  view-cleared :
      (s : Split (QueryEvent C)) (d : Dispatcher C R)
      → d.outstanding ≡ s.before ++ s.found ∷ s.after
      → view (socket_cleared s d) ≡ view d
  unfolding socket_cleared
  view-cleared s d split =
      ap (λ (ids : List ℕ). record (view d) { waiting = bag_of ids })
        (qids-cleared s.before s.found s.after ∙ sym (ap qids split))

  -- Behind a part that changes nothing the abstract session sees.
  Does-from :
      (d e : Dispatcher C R) (l : Label) (r : Result (Unit {0}) × Dispatcher C R)
      → view e ≡ view d
      → Does e l r
      → Does d l r
  Does-from d e l (ok u, f) same w = subst (λ (v : Window). Step v l (view f)) same w
  Does-from d e l (err x, f) same w = w ∙ ap (λ (v : Window). v.sent) same

  after_part :
      (d e : Dispatcher C R) (l : Label) (m k : Method C R)
      → m d ≡ (ok tt, e)
      → Does d l (k e)
      → Does d l ((m >> k) d)
  after_part d e l m k h w =
      subst
        (λ (r : Result (Unit {0}) × Dispatcher C R).
          Does d l (◌>>◌ (λ (_ : Dispatcher C R). r) k d))
        (sym h) w

  parse_tcp-Does :
      (parse_qid : Text → Option ℕ) (bytes : Text) (d e : Dispatcher C R) (l : Label)
      (k : Method C R)
      → e.queries_sent ≡ d.queries_sent
      → Does d l (k e)
      → Does d l ((parse_tcp parse_qid bytes >> k) e)
  unfolding parse_tcp parsed
  parse_tcp-Does parse_qid [] d e l k same w = w
  parse_tcp-Does parse_qid (c ∷ t) d e l k same w = go (parse_qid (c ∷ t))
    where
      go : (o : Option ℕ) → Does d l ((parsed o (λ _. pure tt) >> k) e)
      go none = same
      go (some qid) = w

  module _ (source : Source C R) (s : Split (QueryEvent C)) (d : Dispatcher C R) (inv : Inv d)
      (split : d.outstanding ≡ s.before ++ s.found ∷ s.after)
      (small : d.queries_sent + 1 < u64_mod) where
    cleared-Does :
        (answered : Bool)
        → Does d
            (done answered s.found.qid)
            (restart_query source s.found.qid answered (socket_cleared s d))
    cleared-Does answered =
        let same = view-cleared s d split in
        Does-from d (socket_cleared s d) _ _ same (
          restart_query-Does source (socket_cleared s d) s.found.qid answered
            (socket_cleared-Inv s d inv split)
            (subst (λ (n : ℕ). n + 1 < u64_mod) (sym (ap (λ (v : Window). v.sent) same)) small))

    timer-Does : Does d (done false s.found.qid) (query_timer_callback source s d)
    unfolding query_timer_callback
    timer-Does =
        if_both (Does d (done false s.found.qid)) s.found.tcp_sock
          (λ sock.
            after_part d (socket_cleared s d) _ (clear_socket_of s)
              (restart_query source s.found.qid false) (clear_socket_of-ok s d sock)
              (cleared-Does false))
          (λ _. restart_query-Does source d s.found.qid false inv small)

    tcp-Does :
        (parse_qid : Text → Option ℕ) (bytes : Text)
        → s.found.tcp_sock ≡ true
        → Does d
            (done (not (is_nil bytes)) s.found.qid)
            (response_tcp_callback source parse_qid bytes s d)
    unfolding response_tcp_callback
    tcp-Does parse_qid bytes sock =
        let restart : Method C R = restart_query source s.found.qid (not (is_nil bytes)) in
        after_part d (socket_cleared s d) _ (clear_socket_of s)
          (parse_tcp parse_qid bytes >> restart) (clear_socket_of-ok s d sock)
          (parse_tcp-Does parse_qid bytes d (socket_cleared s d) _ restart
            (ap (λ (v : Window). v.sent) (view-cleared s d split))
            (cleared-Does (not (is_nil bytes))))

    null_tcp-Does : s.found.tcp_sock ≡ true → Does d (done true s.found.qid) (null_tcp_callback s d)
    unfolding null_tcp_callback
    null_tcp-Does sock =
        after_part d (socket_cleared s d) _ (clear_socket_of s) (throw undefined)
          (clear_socket_of-ok s d sock) (ap (λ (v : Window). v.sent) (view-cleared s d split))

  on_event-Does :
      (answered : Bool) (k : Split (QueryEvent C) → Method C R) (p : QueryEvent C → Bool)
      (d : Dispatcher C R)
      → ((s : Split (QueryEvent C))
          → d.outstanding ≡ s.before ++ s.found ∷ s.after
          → p s.found ≡ true
          → Does d (done answered s.found.qid) (k s d))
      → Does d
          (done_by answered (found_id (find_if p d.outstanding)))
          (on_event k (find_if p d.outstanding) d)
  unfolding on_event
  on_event-Does answered k p d w = go (find_if p d.outstanding) (find_if-Finds p d.outstanding)
    where
      go :
          (o : Option (Split (QueryEvent C)))
          → Finds p d.outstanding o
          → Does d (done_by answered (found_id o)) (on_event k o d)
      go none f = idle (view d)
      go (some s) f = w s f.0 f.1

  response-Does :
      (source : Source C R) (parse_qid : Text → Option ℕ) (bytes : Text) (d : Dispatcher C R)
      → Inv d
      → d.queries_sent + 1 < u64_mod
      → Does d (done_by true (parse_qid bytes)) (response_callback source parse_qid bytes d)
  unfolding response_callback parsed
  response-Does source parse_qid bytes d inv small = go (parse_qid bytes)
    where
      go :
          (o : Option ℕ)
          → Does d (done_by true o) (parsed o (λ qid. restart_query source qid true) d)
      go none = refl
      go (some qid) = restart_query-Does source d qid true inv small

  -- Between two callbacks each delivery of the message manager is a step of the abstract session, by
  -- its meaning; if the callback throws, no query was sent.
  pub deliver-Does :
      (source : Source C R) (parse_qid : Text → Option ℕ) (x : Delivery) (d : Dispatcher C R)
      → Inv d
      → d.queries_sent + 1 < u64_mod
      → Does d (label parse_qid x d) (deliver source parse_qid x d)
  unfolding deliver session_timer_callback
  deliver-Does source parse_qid (response bytes) d inv small =
      response-Does source parse_qid bytes d inv small
  deliver-Does source parse_qid (tcp_response ident bytes) d inv small =
      on_event-Does (not (is_nil bytes)) (response_tcp_callback source parse_qid bytes)
        (owns_socket ident) d
        λ s e p. tcp-Does source s d inv e small parse_qid bytes (ground arith)
  deliver-Does source parse_qid (tcp_null ident) d inv small =
      on_event-Does true null_tcp_callback (owns_socket ident) d
        λ s e p. null_tcp-Does source s d inv e small (ground arith)
  deliver-Does source parse_qid (query_timeout ident) d inv small =
      on_event-Does false (query_timer_callback source) (is_event ident) d
        λ s e p. timer-Does source s d inv e small
  deliver-Does source parse_qid session_timeout d inv small = expire (view d)
