-- ===== src/Traffic.antt =====
-- The queries that a session puts on the wire: the repository, the contexts and the dispatcher of
-- src/lib/ together, as src/lib/dispatcher.cc composes them.
pub mod Sending
pub mod Log
pub mod Session
pub mod Run
pub mod Supplies
pub mod Returning
pub mod Opening
pub mod Requests
use queryperfpp.Base.{ℕ, zero, suc, ◌+◌, ◌%◌, ◌≡◌, List, [], ◌∷◌, ◌++◌, Text, Result, ok, err}
use queryperfpp.Repository.Dns.{Dns, RequestParam}
use queryperfpp.Repository.State.{Edns, Repository, get_next_param}
use queryperfpp.Context.{Message, clear_render, set_qid, query_calls, QueryContext, create, start}
use queryperfpp.Dispatcher.Types.{
  Source, Call, create_udp, create_tcp, send_udp, send_tcp, delete_tcp, start_query_timer,
  start_session_timer, stop, Dispatcher,
}
use queryperfpp.Dispatcher.Query.{u16_mod}

-- `qryctx_creator_`, over the repository of the dispatcher.
unfoldable pub context_source : Dns → ℕ → (Message → Text) → Source QueryContext Repository
context_source dns fuel to_wire = record { create = create; start = start dns fuel to_wire }

-- What the queries of a session come from: a renderer, for which `Message::clear(RENDER)` makes a
-- message as new, and a repository that serves one parameter after the other. `At i` holds of it when
-- number `i` is to come.
pub record Supply : Type 1 where
  pub dns : Dns
  pub fuel : ℕ
  pub to_wire : Message → Text
  pub forgets :
      (before after : Message)
      → to_wire (before ++ clear_render ∷ after) ≡ to_wire (clear_render ∷ after)
  pub edns : Edns
  pub wanted : ℕ → RequestParam
  pub At : ℕ → Repository → Type 0
  pub serve :
      (i : ℕ) (r : Repository)
      → At i r
      → ((get_next_param dns fuel r).0 ≡ ok (wanted i))
        × At (suc i) (get_next_param dns fuel r).1
        × ((get_next_param dns fuel r).1.edns ≡ edns)

-- The bytes of the queries among the calls of the manager, in their order.
abbrev pub bytes_of : Call → List Text
bytes_of (create_udp address port) = []
bytes_of (create_tcp ident address port) = []
bytes_of (send_udp bytes) = bytes ∷ []
bytes_of (send_tcp ident bytes) = bytes ∷ []
bytes_of (delete_tcp ident) = []
bytes_of (start_query_timer ident duration) = []
bytes_of (start_session_timer duration) = []
bytes_of stop = []

abbrev pub sent_bytes : List Call → List Text
sent_bytes [] = []
sent_bytes (c ∷ cs) = bytes_of c ++ sent_bytes cs

module _ (to_wire : Message → Text) (edns : Edns) (wanted : ℕ → RequestParam) where
  -- The query number `n`: the parameter number `n`, and `n` in 16 bits as its id.
  abbrev pub query_bytes : ℕ → Text
  query_bytes n = to_wire (query_calls (wanted n) edns ++ set_qid (n % u16_mod) ∷ [])

  -- The first `n` queries, newest first.
  abbrev pub first_bytes : ℕ → List Text
  first_bytes zero = []
  first_bytes (suc n) = query_bytes n ∷ first_bytes n
