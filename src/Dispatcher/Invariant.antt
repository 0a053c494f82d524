-- ===== src/Dispatcher/Invariant.antt =====
-- The counters and the window of a session of src/lib/dispatcher.cc between two callbacks.
pub mod Callbacks
pub mod Session
use queryperfpp.Base.{
  subst, ◌>>◌, ◌>>=◌, ◌⊎◌, ℕ, zero, suc, ◌+◌, ◌%◌, ◌≤◌, ◌<◌, ◌≡◌, refl, sym, ap, ◌∙◌, inl, inr,
  Bool, true, false, Bool-cases, Option, none, some, List, [], ◌∷◌, ◌++◌, arith, length,
  length-append, is_nil, if◌then◌else◌, Text, Error, Result, ok, err, Action,
}
use queryperfpp.Dispatcher.Types.{Method, Source, QueryEvent, Dispatcher, Focus}
use queryperfpp.Dispatcher.Query.{u16_mod, u64_mod, dispatch_query, stop_manager}
use queryperfpp.Dispatcher.Query.Effect.{
  Keeps, Counts, dispatch_query-Preserves, dispatch_query-Counts,
}
use queryperfpp.Dispatcher.Loop.{
  splice_end, restart_found, restart_query, match_response, Split, find_if, match_response,
  set_outstanding, put_back, drop_event, count_completed, restart_found, restart_query,
}
use queryperfpp.Dispatcher.Numbering.{IsNumbered, IsNumbered-restart, IsNumbered-remove}
use queryperfpp.Dispatcher.Loop.Find.{Finds, find_if-Finds, length-middle, length-moved}

nil_cases :
    {A : Type 0} (xs : List A)
    → ((is_nil xs ≡ true) × (length xs ≡ 0)) ⊎ ((is_nil xs ≡ false) × (0 < length xs))
nil_cases [] = inl (refl, refl)
nil_cases (x ∷ xs) = inr (refl, omega arith)

module _ {C R : Type 0} where
  pub record Books (d : Dispatcher C R) : Type 0 where
    -- No query is counted twice: each one sent is answered, given up, or outstanding.
    pub counted : d.queries_completed + length d.outstanding ≤ d.queries_sent
    -- The next id is the number of queries sent, in 16 bits.
    pub ids : d.qid ≡ d.queries_sent % u16_mod
    -- Before the session timer expires the window is full.
    pub full : d.keep_sending ≡ true → length d.outstanding ≡ d.window
    -- The manager is stopped exactly when no query is outstanding.
    pub drained : d.manager.stopped ≡ true → length d.outstanding ≡ 0
    pub busy : d.manager.stopped ≡ false → 0 < length d.outstanding

  -- The invariant between two callbacks: the books, and the numbers of the outstanding queries.
  pub record Inv (d : Dispatcher C R) : Type 0 where
    pub books : Books d
    pub numbers : IsNumbered d.queries_sent d.outstanding

  -- What holds after a method that returned, and what is always left after one that threw: no more
  -- queries are completed than sent.
  abbrev pub Post : (Dispatcher C R → Type 0) → Result (Unit {0}) × Dispatcher C R → Type 0
  Post P (ok _, d) = P d
  Post P (err _, d) = d.queries_completed ≤ d.queries_sent

  result-Post :
      (P Q : Dispatcher C R → Type 0) (r : Result (Unit {0})) (d : Dispatcher C R) (k : Method C R)
      → Post P (r, d)
      → ((e : Dispatcher C R) → P e → Post Q (k e))
      → Post Q (◌>>◌ (λ (_ : Dispatcher C R). (r, d)) k d)
  result-Post P Q (ok u) d k p h = h d p
  result-Post P Q (err e) d k p h = p

  pub then-Post :
      (P Q : Dispatcher C R → Type 0) (m k : Method C R) (d : Dispatcher C R)
      → Post P (m d)
      → ((e : Dispatcher C R) → P e → Post Q (k e))
      → Post Q ((m >> k) d)
  then-Post P Q m k d p h = result-Post P Q (m d).0 (m d).1 k p h

  -- The invariant, with at most `limit` queries sent.
  abbrev pub Within : ℕ → Dispatcher C R → Type 0
  Within limit d = Inv d × (d.queries_sent ≤ limit)

  module _ (d : Dispatcher C R) (answered : Bool) (s : Split (QueryEvent C)) (inv : Inv d)
      (split : d.outstanding ≡ s.before ++ s.found ∷ s.after)
      (small : d.queries_sent + 1 < u64_mod) where
    size : length d.outstanding ≡ suc (length s.before + length s.after)
    size = ap length split ∙ length-middle s.before s.found s.after

    abbrev taken : Focus C R
    taken = record { event = s.found; disp = count_completed answered d }

    before_split : IsNumbered d.queries_sent (s.before ++ s.found ∷ s.after)
    before_split = subst (IsNumbered d.queries_sent) split inv.numbers

    put_back-Books :
        (u : Unit {0}) (g : Focus C R)
        → Keeps taken g
        → Counts taken (ok u, g)
        → Books (put_back s (ok u, g)).1
    unfolding put_back splice_end count_completed
    put_back-Books u g k c = ground (arith, inv.books, size, length-moved s.before s.after g.event)

    put_back-Ensures :
        (r : Result (Unit {0})) (g : Focus C R)
        → Keeps taken g
        → Counts taken (r, g)
        → Post (Within (d.queries_sent + 1)) (put_back s (r, g))
    unfolding put_back splice_end count_completed
    put_back-Ensures (ok u) g k c = (
      record {
        books = put_back-Books u g k c;
        numbers =
            IsNumbered-restart d.queries_sent s.before s.found s.after before_split
              g.disp.queries_sent g.event (ground arith) (ground (arith, inv.books));
      },
      ground arith,
    )
    put_back-Ensures (err e) g k c = ground (arith, inv.books, size)

    drop_event-Books : d.keep_sending ≡ false → Books (drop_event s (count_completed answered d))
    unfolding drop_event count_completed
    drop_event-Books e =
        ground
          (arith, inv.books, size, length-append s.before s.after, nil_cases (s.before ++ s.after))

    dropped-outstanding :
        (drop_event s (count_completed answered d)).outstanding ≡ s.before ++ s.after
    unfolding drop_event count_completed
    dropped-outstanding = ground arith

    dropped-sent : (drop_event s (count_completed answered d)).queries_sent ≡ d.queries_sent
    unfolding drop_event count_completed
    dropped-sent = ground arith

    drop_event-Ensures :
        d.keep_sending ≡ false
        → Post (Within (d.queries_sent + 1)) (ok tt, drop_event s (count_completed answered d))
    drop_event-Ensures e = (
      record {
        books = drop_event-Books e;
        numbers =
            rw (dropped-outstanding, dropped-sent)
              (IsNumbered-remove d.queries_sent s.before s.found s.after before_split);
      },
      omega (arith, dropped-sent),
    )

    keep_sending-count : (count_completed answered d).keep_sending ≡ d.keep_sending
    unfolding count_completed
    keep_sending-count = ground arith

    found_by :
        (source : Source C R) (on : Bool)
        → d.keep_sending ≡ on
        → Post (Within (d.queries_sent + 1)) (
            if on
            then put_back s (dispatch_query source taken)
            else (ok tt, drop_event s (count_completed answered d)))
    found_by source true e =
        put_back-Ensures (dispatch_query source taken).0 (dispatch_query source taken).1
          (dispatch_query-Preserves source taken) (dispatch_query-Counts source taken)
    found_by source false e = drop_event-Ensures e

    found-Ensures :
        (source : Source C R)
        → Post (Within (d.queries_sent + 1)) (restart_found source answered (some s) d)
    unfolding restart_found
    found-Ensures source = found_by source _ (sym keep_sending-count)

  restart_found-Ensures :
      (source : Source C R) (d : Dispatcher C R) (answered : Bool) (p : QueryEvent C → Bool)
      (o : Option (Split (QueryEvent C)))
      → Inv d
      → d.queries_sent + 1 < u64_mod
      → Finds p d.outstanding o
      → Post (Within (d.queries_sent + 1)) (restart_found source answered o d)
  unfolding restart_found
  restart_found-Ensures source d answered p none inv small f = (inv, omega arith)
  restart_found-Ensures source d answered p (some s) inv small f =
      found-Ensures d answered s inv f.0 small source

  -- A query that is restarted, whether it was answered or given up, keeps the books: a callback that
  -- returns keeps the invariant and sends at most one query, and one that throws still leaves no
  -- more queries completed than sent.
  pub restart_query-Ensures :
      (source : Source C R) (d : Dispatcher C R) (qid : ℕ) (answered : Bool)
      → Inv d
      → d.queries_sent + 1 < u64_mod
      → Post (Within (d.queries_sent + 1)) (restart_query source qid answered d)
  unfolding restart_query
  restart_query-Ensures source d qid answered inv small =
      restart_found-Ensures source d answered (match_response qid) _ inv small
        (find_if-Finds (match_response qid) d.outstanding)
