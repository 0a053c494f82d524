-- ===== src/Traffic/Requests.antt =====
-- What a session sends for an input of src/lib/query_repository.cc, with a preload and without.
use native.Mathlib.Nat.{mod-eq_of_lt}
use queryperfpp.Base.{
  Gives, false, is_nil, some, ℕ, ◌+◌, ◌<◌, ◌≡◌, refl, sym, ap, subst, ◌∙◌, true, Option, List, [],
  ◌∷◌, ◌++◌, map, Text, length, arith, ok,
}
use queryperfpp.Stream.{Stream, open_stream}
use queryperfpp.Repository.Dns.{RequestParam, Dns, Request}
use queryperfpp.Repository.Requests.{lines, blanks, filled, requests}
use queryperfpp.Repository.Reader.Takes.{IsOpen}
use queryperfpp.Repository.State.{Repository, load}
use queryperfpp.Repository.Preload.{param_of, Loads, load-Loads}
use queryperfpp.Repository.Unchanged.{load-SameSettings}
use queryperfpp.Repository.Streaming.{Streams, Streams-first}
use queryperfpp.Repository.Streaming.Preloaded.{over-IsOpen}
use queryperfpp.Context.{Message, clear_render}
use queryperfpp.Dispatcher.Query.{u64_mod}
use queryperfpp.Dispatcher.Loop.{Delivery}
use queryperfpp.Dispatcher.Session.{start_session, run}
use queryperfpp.Dispatcher.Invariant.Session.{IsFresh}
use queryperfpp.Traffic.{context_source, sent_bytes, first_bytes}
use queryperfpp.Traffic.Returning.{Returns, Returns-map}
use queryperfpp.Traffic.Log.{Log-sent_bytes, Session}
use queryperfpp.Traffic.Opening.{start_session-Opened, Opened}
use queryperfpp.Traffic.Run.{run-sent_bytes}
use queryperfpp.Traffic.Supplies.{AtPreloaded, in_turn, preloaded, streaming}

module _ (dns : Dns) (fuel : ℕ) (to_wire : Message → Text)
    (forgets : (before after : Message)
      → to_wire (before ++ clear_render ∷ after) ≡ to_wire (clear_render ∷ after)) where
  -- The queries on the wire are those of the requests of a text, in turn, under the settings of a
  -- repository.
  abbrev pub SentInTurn : Repository → Text → Unit {0} → Session → Type 0
  SentInTurn r text _ e =
      sent_bytes e.manager.calls
      ≡ first_bytes to_wire r.edns (in_turn (map (param_of dns r) (requests dns r.qclass text)))
          e.queries_sent

  -- So many queries were sent, and these are they.
  abbrev pub SentFirst : ℕ → Repository → Text → Unit {0} → Session → Type 0
  SentFirst n r text u e = (e.queries_sent ≡ n) × SentInTurn r text u e

  module _ (text : Text) (d : Session) (fresh : IsFresh d) (quiet : d.manager.calls ≡ [])
      (new : d.repository.params ≡ []) (input : d.repository.input ≡ open_stream text true)
      (some_request : 0 < length (requests dns d.repository.qclass text)) where
    abbrev asked : List Request
    asked = requests dns d.repository.qclass text

    abbrev loaded : Session
    loaded = record d { repository = (load dns d.repository).1 }

    loaded-IsFresh : IsFresh loaded
    loaded-IsFresh = record {
      unsent = fresh.unsent;
      uncompleted = fresh.uncompleted;
      first_id = fresh.first_id;
      empty = fresh.empty;
      sending = fresh.sending;
      running = fresh.running;
      window_open = fresh.window_open;
      no_socket = fresh.no_socket;
    }

    load-asked : blanks (lines text) < 1000 → Loads dns d.repository asked (load dns d.repository)
    unfolding open_stream
    load-asked few =
        let rest : d.repository.input.rest ≡ text = ap (λ (s : Stream). s.rest) input in
        subst
          (λ (t : Text).
            Loads dns d.repository (requests dns d.repository.qclass t) (load dns d.repository))
          rest
          (load-Loads dns d.repository new (subst IsOpen (sym input) (over-IsOpen text))
            (subst (λ (t : Text). blanks (lines t) < 1000) (sym rest) few))

    -- Behind `load`, what holds of every preloaded repository holds.
    behind_load :
        (P : (ℕ → RequestParam) → Type 0)
        → blanks (lines text) < 1000
        → ((params : List RequestParam) (some_param : is_nil params ≡ false)
            → AtPreloaded dns fuel to_wire forgets d.repository.edns params some_param 0
                loaded.repository
            → P (in_turn params))
        → ((load dns d.repository).0 ≡ ok tt) × P (in_turn (map (param_of dns d.repository) asked))
    behind_load P few holds = go asked refl
      where
        go :
            (rs : List Request)
            → asked ≡ rs
            → ((load dns d.repository).0 ≡ ok tt)
              × P (in_turn (map (param_of dns d.repository) asked))
        go [] same = absurd (omega (arith, ap (λ (ys : List Request). length ys) same))
        go (q ∷ rs) same =
            let (done, all, at) =
              subst (λ (ys : List Request). Loads dns d.repository ys (load dns d.repository)) same
                (load-asked few) in
            (
              done,
              subst (λ (ys : List Request). P (in_turn (map (param_of dns d.repository) ys)))
                  (sym same)
                  (holds (map (param_of dns d.repository) (q ∷ rs)) refl (
                    all,
                    at ∙ ap some (sym (mod-eq_of_lt (omega arith))),
                    (load-SameSettings dns d.repository).options,
                  )),
            )

    -- For a dispatcher that has not run, over an input with a request and fewer than 1000 empty
    -- lines and comments, with a window below 2^64, and a renderer for which clearing a message
    -- makes its bytes those of a new one: if no call of the manager fails, `load` returns, and
    -- `run` behind it gets to its event loop, having sent exactly as many queries as the window,
    -- the first of the input's requests in order, again and again, with the ids 0, 1 and so on in
    -- 16 bits.
    pub start_session-preloaded :
        (now : ℕ)
        → d.manager.outcomes ≡ []
        → d.window < u64_mod
        → blanks (lines text) < 1000
        → ((load dns d.repository).0 ≡ ok tt)
          × Returns
              (SentFirst d.window d.repository text)
              (start_session (context_source dns fuel to_wire) now loaded)
    start_session-preloaded now reliable small few =
        behind_load
          (λ wanted.
            Returns
              (λ _ (e : Session).
                (e.queries_sent ≡ d.window)
                × (sent_bytes e.manager.calls
                    ≡ first_bytes to_wire d.repository.edns wanted e.queries_sent))
              (start_session (context_source dns fuel to_wire) now loaded))
          few
          λ params some_param at.
            let supply = preloaded dns fuel to_wire forgets d.repository.edns params some_param in
            Returns-map (Opened supply d.window) _
              (start_session (context_source dns fuel to_wire) now loaded)
              (start_session-Opened supply now loaded loaded-IsFresh quiet reliable at small)
              λ _ e (log, _). (log.sent, Log-sent_bytes supply d.window e log)

    module _ (parse_qid : Text → Option ℕ) (now later : ℕ) (xs : List Delivery)
        (small : d.window + length xs < u64_mod) where
      -- For a dispatcher that has not run, over an input that can seek and has a request, in which
      -- twice as many empty lines and comments and one are below 1000, with fuel for twice the
      -- other lines, below 2^64 queries, and a renderer for which clearing a message makes its
      -- bytes those of a new one: a session without a preload that returns has sent the queries of
      -- the input's requests, in order, again and again from the first, with their numbers in 16
      -- bits as ids, and no others.
      pub run-streaming :
          blanks (lines text) + 1 + blanks (lines text) < 1000
          → length (filled (lines text)) + length (filled (lines text)) < fuel
          → Gives
              (SentInTurn d.repository text)
              (run (context_source dns fuel to_wire) parse_qid now xs later d)
      unfolding open_stream
      run-streaming few enough =
          run-sent_bytes
            (streaming dns fuel to_wire forgets d.repository.edns text few enough d.repository refl
              some_request)
            parse_qid now later xs d fresh quiet
            (subst (λ (k : ℕ). Streams dns text fuel few enough d.repository k d.repository)
              (sym (mod-eq_of_lt some_request))
              (Streams-first dns text fuel few enough d.repository new input))
            small

      -- For a dispatcher that has not run, over an input with a request and fewer than 1000 empty
      -- lines and comments, below 2^64 queries, and a renderer for which clearing a message makes
      -- its bytes those of a new one: `load` returns, and a session behind it that returns,
      -- whatever calls of the manager fail and whatever is delivered, has sent as query number n
      -- the bytes of the request number n modulo the number of requests, with n in 16 bits as its
      -- id, in this order and no others.
      pub run-preloaded :
          blanks (lines text) < 1000
          → ((load dns d.repository).0 ≡ ok tt)
            × Gives
                (SentInTurn d.repository text)
                (run (context_source dns fuel to_wire) parse_qid now xs later loaded)
      run-preloaded few =
          behind_load
            (λ wanted.
              Gives
                (λ _ (e : Session).
                  sent_bytes e.manager.calls
                  ≡ first_bytes to_wire d.repository.edns wanted e.queries_sent)
                (run (context_source dns fuel to_wire) parse_qid now xs later loaded))
            few
            λ params some_param at.
              run-sent_bytes
                (preloaded dns fuel to_wire forgets d.repository.edns params some_param) parse_qid
                now later xs loaded loaded-IsFresh quiet at small
