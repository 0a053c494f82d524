-- ===== src/Tests/Dispatcher.antt =====
-- The theorems about src/lib/dispatcher.cc at a sample session.
use mathlib.Core.Quot
use queryperfpp.Base.{
  ap, assertion, err, true, ℕ, ◌≡◌, refl, false, Option, none, some, List, [], ◌∷◌, Text, arith,
}
use queryperfpp.Dispatcher.Types.{Focus, Dispatcher, QueryEvent}
use queryperfpp.Dispatcher.Loop.{
  tcp_response, restart_found, count_completed, put_back, splice_end, clear_socket_of, drop_event,
  on_event, query_timer_callback, response_tcp_callback, parse_tcp, response_callback, parsed,
  Delivery, response, query_timeout, session_timeout, find_if, match_response, deliver,
  restart_query,
}
use queryperfpp.Dispatcher.Session.{run, run_loop}
use queryperfpp.Dispatcher.Drain.{AllConcern, run_loop-DrainsTo}
use queryperfpp.Dispatcher.Drain.Steps.{DrainsTo}
use queryperfpp.Dispatcher.Spec.{Bag}
use queryperfpp.Dispatcher.Refine.{view, Does}
use queryperfpp.Dispatcher.Refine.Session.{label, deliver-Does}
use queryperfpp.Dispatcher.Refine.Run.{Runs, run-Runs}
use queryperfpp.Dispatcher.Refine.Agree.{Agrees, deliver-Agrees}
use queryperfpp.Dispatcher.Collision.{response-collides}
use queryperfpp.Dispatcher.Numbering.{IsNumbered, find-own}
use queryperfpp.Dispatcher.Invariant.{Inv, Post, Within}
use queryperfpp.Dispatcher.Query.{clear_tcp_socket, record_call}
use queryperfpp.Dispatcher.Invariant.Session.{IsFresh, run-Post}
use queryperfpp.Tests.Samples.{sample_source, sample_dispatcher}

abbrev first_byte : Text → Option ℕ
first_byte [] = none
first_byte (c ∷ t) = some c

abbrev sample_deliveries : List Delivery
sample_deliveries =
    response (1 ∷ [])
    ∷ query_timeout 0
    ∷ session_timeout
    ∷ response (2 ∷ [])
    ∷ response (3 ∷ [])
    ∷ []

sample-IsFresh : IsFresh (sample_dispatcher [])
sample-IsFresh = ground arith

run-Post_example :
    Post
      (Within 7)
      (run (sample_source 17) first_byte 100 sample_deliveries 130 (sample_dispatcher []))
run-Post_example =
    run-Post (sample_source 17) first_byte 100 130 sample_deliveries (sample_dispatcher [])
      sample-IsFresh (omega arith)

abbrev event_at : ℕ → ℕ → QueryEvent (Unit {0})
event_at ident qid = record {
  ident = ident;
  ctx = tt;
  qid = qid;
  tcp_sock = false;
  tcp_rcvbuf = false;
}

-- Queries number 65535 and 65536 are outstanding, the later one in front.
sample-IsNumbered : IsNumbered 65537 (event_at 0 0 ∷ event_at 1 65535 ∷ [])
sample-IsNumbered = record { seqs = 65536 ∷ 65535 ∷ []; distinct = λ k. ground arith; ids = refl }

find-own_example :
    find_if (match_response 65535) (event_at 0 0 ∷ event_at 1 65535 ∷ [])
    ≡ some (record { before = event_at 0 0 ∷ []; found = event_at 1 65535; after = [] })
unfolding sample-IsNumbered
find-own_example =
    find-own 65537 65535 (event_at 0 0 ∷ []) (event_at 1 65535) [] sample-IsNumbered
      (λ k h. ground arith) (omega arith)

-- Queries number 0 and 1 are outstanding.
abbrev sample_running : Dispatcher (Unit {0}) (Unit {0})
sample_running = record (sample_dispatcher (event_at 0 0 ∷ event_at 1 1 ∷ [])) {
  qid = 2;
  queries_sent = 2;
}

sample-Inv : Inv sample_running
sample-Inv = record {
  books = ground arith;
  numbers = record { seqs = 0 ∷ 1 ∷ []; distinct = λ k. ground arith; ids = refl };
}

abbrev sample_focus : Focus (Unit {0}) (Unit {0})
sample_focus = record { event = event_at 0 0; disp = sample_running }

-- The session timer has expired with these two queries outstanding.
abbrev sample_ended : Dispatcher (Unit {0}) (Unit {0})
sample_ended = record sample_running { keep_sending = false }

-- An answer over TCP for the first of them, and one over UDP for the other.
abbrev sample_ended_tcp : Dispatcher (Unit {0}) (Unit {0})
sample_ended_tcp = record sample_ended {
  outstanding = record (event_at 0 0) { tcp_sock = true } ∷ event_at 1 1 ∷ [];
}

abbrev last_answers : List Delivery
last_answers = tcp_response 0 [] ∷ response (1 ∷ []) ∷ []

sample-AllConcern : AllConcern (sample_source 17) first_byte last_answers sample_ended_tcp
unfolding find_if deliver restart_query restart_found count_completed put_back splice_end
    clear_socket_of clear_tcp_socket drop_event on_event query_timer_callback response_tcp_callback
    parse_tcp response_callback parsed record_call
sample-AllConcern = (((λ e. cc), λ h. absurd (h refl)), ((1, refl, λ e. cc), tt))

run_loop-DrainsTo_example :
    DrainsTo 0 (run_loop (sample_source 17) first_byte last_answers sample_ended_tcp)
run_loop-DrainsTo_example =
    run_loop-DrainsTo (sample_source 17) first_byte last_answers sample_ended_tcp (ground arith)
      sample-AllConcern

-- Query number 1 is outstanding over TCP, and the next query goes over TCP.
abbrev sample_tcp : Dispatcher (Unit {0}) (Unit {0})
sample_tcp = record sample_running {
  outstanding = event_at 0 0 ∷ record (event_at 1 1) { tcp_sock = true } ∷ [];
}

response-collides_example :
    (deliver (sample_source 6) first_byte (response (1 ∷ [])) sample_tcp).0 ≡ err assertion
response-collides_example =
    response-collides (sample_source 6) first_byte (1 ∷ []) sample_tcp (event_at 0 0 ∷ [])
      (record (event_at 1 1) { tcp_sock = true }) [] (record { proto = 6; query = 2 ∷ [] }) refl
      (refl, tt) refl refl refl refl refl refl

deliver-Does_example :
    Does sample_running
      (label first_byte (response (1 ∷ [])) sample_running)
      (deliver (sample_source 17) first_byte (response (1 ∷ [])) sample_running)
deliver-Does_example =
    deliver-Does (sample_source 17) first_byte (response (1 ∷ [])) sample_running sample-Inv
      (omega arith)

run-Runs_example :
    Runs 2 (run (sample_source 17) first_byte 100 sample_deliveries 130 (sample_dispatcher []))
run-Runs_example =
    run-Runs (sample_source 17) first_byte 100 130 sample_deliveries (sample_dispatcher [])
      sample-IsFresh (omega arith)

-- The same queries in the other order.
abbrev sample_swapped : Dispatcher (Unit {0}) (Unit {0})
sample_swapped = record sample_running { outstanding = event_at 1 1 ∷ event_at 0 0 ∷ [] }

swapped-Inv : Inv sample_swapped
swapped-Inv = record {
  books = ground arith;
  numbers = record { seqs = 1 ∷ 0 ∷ []; distinct = λ k. ground arith; ids = refl };
}

sample-swapped : view sample_running ≡ view sample_swapped
sample-swapped =
    ap (λ (b : Bag). record (view sample_running) { waiting = b }) (Quot.sound λ k. omega arith)

-- Two answers to query number 1.
deliver-Agrees_example :
    Agrees
      (deliver (sample_source 17) first_byte (response (1 ∷ 7 ∷ [])) sample_running)
      (deliver (sample_source 6) first_byte (response (1 ∷ [])) sample_swapped)
deliver-Agrees_example =
    deliver-Agrees (sample_source 17) (sample_source 6) first_byte first_byte
      (response (1 ∷ 7 ∷ [])) (response (1 ∷ [])) sample_running sample_swapped sample-Inv
      swapped-Inv (omega arith) (omega arith) sample-swapped refl
