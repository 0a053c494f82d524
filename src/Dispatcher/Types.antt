-- ===== src/Dispatcher/Types.antt =====
-- The data of src/lib/dispatcher.cc, and the interfaces through which it acts: the source of
-- queries (src/lib/query_context.h) and the message manager (src/lib/message_manager.h).
use queryperfpp.Base.{ℕ, Bool, Option, List, Text, Action}
use queryperfpp.Context.{QuerySpec}

-- A source of queries: contexts C over a shared repository R.
pub record Source (C R : Type 0) : Type 0 where
  pub create : C
  pub start : ℕ → Action (C × R) QuerySpec

-- What the dispatcher asks of the message manager. A TCP socket and a query timer belong to the
-- event with the number given. Neither `createMessageTimer`, which comes with each event and with the
-- session, nor `run`, which is the event loop, is recorded.
pub data Call : Type 0 where
  create_udp : Text → ℕ → Call
  create_tcp : ℕ → Text → ℕ → Call
  send_udp : Text → Call
  send_tcp : ℕ → Text → Call
  delete_tcp : ℕ → Call
  start_query_timer : ℕ → ℕ → Call
  start_session_timer : ℕ → Call
  stop : Call

-- The manager is not fixed by the interface, and each of its calls may throw: `outcomes` says which
-- do, in the order of the calls (`true` throws; past the end none does). `calls` is newest first.
-- `stop` sets `stopped`, and the event loop leaves.
pub record Manager : Type 0 where
  pub calls : List Call
  pub outcomes : List Bool
  pub stopped : Bool

-- `class QueryEvent`. `ident` stands for its address.
pub record QueryEvent (C : Type 0) : Type 0 where
  pub ident : ℕ
  pub ctx : C
  pub qid : ℕ
  pub tcp_sock : Bool
  pub tcp_rcvbuf : Bool

-- `struct DispatcherImpl`. `internal` says whether `qry_repo_local_` is set; a time of `none` is
-- `is_special()`.
pub record Dispatcher (C R : Type 0) : Type 0 where
  pub manager : Manager
  pub repository : R
  pub internal : Bool
  pub udp_socket : Bool
  pub session_timer : Bool
  pub server_address : Text
  pub server_port : ℕ
  pub test_duration : ℕ
  pub query_timeout : ℕ
  pub keep_sending : Bool
  pub window : ℕ
  pub qid : ℕ
  pub outstanding : List (QueryEvent C)
  pub queries_sent : ℕ
  pub queries_completed : ℕ
  pub start_time : Option ℕ
  pub end_time : Option ℕ

module _ {C R : Type 0} where
  -- The getters.
  abbrev pub get_server_address : Dispatcher C R → Text
  get_server_address d = d.server_address

  abbrev pub get_server_port : Dispatcher C R → ℕ
  get_server_port d = d.server_port

  abbrev pub get_test_duration : Dispatcher C R → ℕ
  get_test_duration d = d.test_duration

  abbrev pub get_queries_sent : Dispatcher C R → ℕ
  get_queries_sent d = d.queries_sent

  abbrev pub get_queries_completed : Dispatcher C R → ℕ
  get_queries_completed d = d.queries_completed

  abbrev pub get_start_time : Dispatcher C R → Option ℕ
  get_start_time d = d.start_time

  abbrev pub get_end_time : Dispatcher C R → Option ℕ
  get_end_time d = d.end_time

-- One event of the list in the hand, with the rest of the state.
pub record Focus (C R : Type 0) : Type 0 where
  pub event : QueryEvent C
  pub disp : Dispatcher C R

-- A method of the dispatcher that returns nothing.
abbrev pub Method : Type 0 → Type 0 → Type 0
Method C R = Action (Dispatcher C R) (Unit {0})
