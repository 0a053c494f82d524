-- ===== src/Timers.antt =====
-- The query timers of a session: src/lib/dispatcher.cc over src/lib/asio_message_manager.cc. The calls
-- of the dispatcher set the timer of an event, and asio calls back.
use queryperfpp.Traffic.{sent_bytes}
use queryperfpp.Base.{
  sym, length, ap, ◌∙◌, Gives, ℕ, zero, suc, ◌+◌, ◌%◌, ◌≤◌, ◌≡◌, refl, subst, Bool, false, Option,
  List, [], ◌∷◌, ◌==◌, if◌then◌else◌, Text, ok, arith,
}
use queryperfpp.Dispatcher.Types.{
  Source, Call, create_udp, create_tcp, send_udp, send_tcp, delete_tcp, start_query_timer,
  start_session_timer, stop, Dispatcher,
}
use queryperfpp.Dispatcher.Query.{u64_mod}
use queryperfpp.Dispatcher.Loop.{Delivery}
use queryperfpp.Dispatcher.Session.{run}
use queryperfpp.Dispatcher.Invariant.Session.{IsFresh}
use queryperfpp.Dispatcher.Protocol.{IsTrace, opened, over_udp, over_tcp, deleted, stopped, Traced}
use queryperfpp.Dispatcher.Protocol.Session.{run-Traced}
use queryperfpp.Asio.Timer.{TimerStep, new_timer, timer_perform_all}
use queryperfpp.Asio.Timer.Expiry.{AllTimerAllowed}
use queryperfpp.Asio.Timer.Spent.{timer_starts, timer_perform_all-spent}

-- How often the calls set the timer of an event.
abbrev pub starts_of : ℕ → List Call → ℕ
starts_of i [] = 0
starts_of i (start_query_timer ident duration ∷ cs) = (if ident == i then 1 else 0) + starts_of i cs
starts_of i (create_udp address port ∷ cs) = starts_of i cs
starts_of i (create_tcp ident address port ∷ cs) = starts_of i cs
starts_of i (send_udp bytes ∷ cs) = starts_of i cs
starts_of i (send_tcp ident bytes ∷ cs) = starts_of i cs
starts_of i (delete_tcp ident ∷ cs) = starts_of i cs
starts_of i (start_session_timer duration ∷ cs) = starts_of i cs
starts_of i (stop ∷ cs) = starts_of i cs

-- The sum over the first events.
abbrev pub sum_below : (ℕ → ℕ) → ℕ → ℕ
sum_below f zero = 0
sum_below f (suc k) = f k + sum_below f k

-- Each call sets one timer.
one_start :
    (j k : ℕ)
    → (k ≤ j → sum_below (λ i. if j == i then 1 else 0) k ≡ 0)
      × (sum_below (λ i. if j == i then 1 else 0) k ≤ 1)
one_start j zero = ((λ _. refl), omega arith)
one_start j (suc k) =
    let (none_before, one) = one_start j k in
    ((λ le. ground (arith, none_before)), ground (arith, none_before, one))

sum_below-add : (f g : ℕ → ℕ) (k : ℕ) → sum_below (λ i. f i + g i) k ≡ sum_below f k + sum_below g k
sum_below-add f g zero = omega arith
sum_below-add f g (suc k) = omega (arith, sum_below-add f g k)

sum_below-le : (f g : ℕ → ℕ) (k : ℕ) → ((i : ℕ) → f i ≤ g i) → sum_below f k ≤ sum_below g k
sum_below-le f g zero h = omega arith
sum_below-le f g (suc k) h = omega (arith, h k, sum_below-le f g k h)

sum_below-zero : (k : ℕ) → sum_below (λ _. 0) k ≡ 0
sum_below-zero zero = refl
sum_below-zero (suc k) = omega (arith, sum_below-zero k)

one_more :
    (j k n : ℕ) (calls : List Call)
    → sum_below (λ i. starts_of i calls) k ≤ n
    → sum_below (λ i. (if j == i then 1 else 0) + starts_of i calls) k ≤ suc n
one_more j k n calls h = omega (
  arith,
  sum_below-add (λ i. if j == i then 1 else 0) (λ i. starts_of i calls) k,
  (one_start j k).1,
)

-- The queries on the wire are those that the trace counts.
IsTrace-sent :
    (address : Text) (port duration timeout : ℕ) (calls : List Call) (n : ℕ) (b : Bool)
    → IsTrace address port duration timeout calls n b
    → length (sent_bytes calls) ≡ n
IsTrace-sent a p l t _ _ _ opened = refl
IsTrace-sent a p l t _ _ _ (over_udp j n query calls trace) =
    ap suc (IsTrace-sent a p l t calls n false trace)
IsTrace-sent a p l t _ _ _ (over_tcp j n query calls trace) =
    ap suc (IsTrace-sent a p l t calls n false trace)
IsTrace-sent a p l t _ _ _ (deleted j n calls trace) = IsTrace-sent a p l t calls n false trace
IsTrace-sent a p l t _ _ _ (stopped n calls trace) = IsTrace-sent a p l t calls n false trace

-- A session sets as many query timers as it sends queries.
IsTrace-starts :
    (address : Text) (port duration timeout k : ℕ) (calls : List Call) (n : ℕ) (b : Bool)
    → IsTrace address port duration timeout calls n b
    → sum_below (λ i. starts_of i calls) k ≤ n
IsTrace-starts a p l t k _ _ _ opened = omega (arith, sum_below-zero k)
IsTrace-starts a p l t k _ _ _ (over_udp j n query calls trace) =
    one_more j k n calls (IsTrace-starts a p l t k calls n false trace)
IsTrace-starts a p l t k _ _ _ (over_tcp j n query calls trace) =
    one_more j k n calls (IsTrace-starts a p l t k calls n false trace)
IsTrace-starts a p l t k _ _ _ (deleted j n calls trace) =
    IsTrace-starts a p l t k calls n false trace
IsTrace-starts a p l t k _ _ _ (stopped n calls trace) =
    IsTrace-starts a p l t k calls n false trace

-- The timer of each event, behind its steps.
abbrev pub fired_by : (ℕ → List TimerStep) → ℕ → ℕ
fired_by steps i = (timer_perform_all (steps i) new_timer).1.fired

module _ {C R : Type 0} where
  -- All query timers of a session together call back at most as often as the session sent queries to
  -- the wire, for a dispatcher that has not run and has not called its manager, and whose run returns.
  -- Whatever happens to the timers of the ASIO manager, if each is set as often as the dispatcher calls
  -- for it: the events with a number below `k` have at most as many callbacks as queries were given to
  -- the sockets, UDP and TCP. The counter of queries sent is that number in 64 bits.
  pub run-timers :
      (source : Source C R) (parse_qid : Text → Option ℕ) (now later : ℕ) (xs : List Delivery)
      (d e : Dispatcher C R) (steps : ℕ → List TimerStep) (k : ℕ)
      → IsFresh d
      → d.manager.calls ≡ []
      → run source parse_qid now xs later d ≡ (ok tt, e)
      → ((i : ℕ) → timer_starts (steps i) ≡ starts_of i e.manager.calls)
      → ((i : ℕ) → AllTimerAllowed (steps i) new_timer)
      → (sum_below (fired_by steps) k ≤ length (sent_bytes e.manager.calls))
        × (e.queries_sent ≡ length (sent_bytes e.manager.calls) % u64_mod)
  run-timers source parse_qid now later xs d e steps k fresh quiet returned same allowed =
      let traced : Traced d.server_address d.server_port d.test_duration d.query_timeout e =
        subst
          (Gives (λ (_ : Unit {0}) (f : Dispatcher C R).
            Traced d.server_address d.server_port d.test_duration d.query_timeout f))
          returned (run-Traced source parse_qid now later xs d fresh quiet) in
      let sent =
        IsTrace-sent d.server_address d.server_port d.test_duration d.query_timeout e.manager.calls
          traced.queries e.manager.stopped traced.trace in
      (
        omega (
          arith,
          sent,
          sum_below-le (fired_by steps) (λ i. starts_of i e.manager.calls) k
              (λ i. omega (arith, timer_perform_all-spent (steps i) (allowed i), same i)),
          IsTrace-starts d.server_address d.server_port d.test_duration d.query_timeout k
              e.manager.calls traced.queries e.manager.stopped traced.trace,
        ),
        traced.counted ∙ ap (λ (n : ℕ). n % u64_mod) (sym sent),
      )
