-- ===== src/Context.antt =====
-- src/lib/query_context.cc, and `getNextQuery` of src/lib/query_repository.cc: a request becomes a
-- message, and the message the bytes to send. bundy's `Message` is seen as the calls made on it;
-- what bytes they come to is the parameter `to_wire`.
pub mod Sends
use queryperfpp.Base.{
  Result, ℕ, ◌||◌, Option, List, [], ◌∷◌, ◌++◌, map, Text, if◌then◌else◌, ok, err, Action, pure,
  get, ◌>>=◌,
}
use queryperfpp.Repository.Dns.{Dns, Question, Rrset, RequestParam}
use queryperfpp.Repository.State.{Edns, Repository, get_next_param}

-- The calls of `bundy::dns::Message` that the source makes on a query.
pub data MessageCall : Type 0 where
  clear_render set_opcode_query set_rcode_noerror set_flag_rd : MessageCall
  add_question : Option Question → MessageCall
  add_authority : Rrset → MessageCall
  set_edns_opt : Edns → MessageCall
  set_qid : ℕ → MessageCall

abbrev pub Message : Type 0
Message = List MessageCall

-- The OPT RR goes in if EDNS or the DO bit is asked for.
unfoldable pub edns_calls : RequestParam → Edns → Message
edns_calls param edns = if param.use_edns || param.use_dnssec then set_edns_opt edns ∷ [] else []

-- The calls of `getNextQuery` for one request.
unfoldable pub query_calls : RequestParam → Edns → Message
unfolding edns_calls
query_calls param edns =
    clear_render
    ∷ set_opcode_query
    ∷ set_rcode_noerror
    ∷ set_flag_rd
    ∷ add_question param.question
    ∷ (map add_authority param.authorities ++ edns_calls param edns)

-- `QuerySpec`
pub record QuerySpec : Type 0 where
  pub proto : ℕ
  pub query : Text

-- `QueryContextImpl`: its message is used again for each query.
pub record QueryContext : Type 0 where
  pub message : Message

-- `QueryContextCreator::create`
unfoldable pub create : QueryContext
create = record { message = [] }

-- `getNextQuery` behind `getNextParam`: the calls on the message, and the protocol.
unfoldable pub fill_message :
    Message → Result RequestParam × Repository → Result (Message × ℕ) × Repository
unfolding query_calls
fill_message message (ok param, r) = (ok (message ++ query_calls param r.edns, param.proto), r)
fill_message message (err e, r) = (err e, r)

-- `start` behind `getNextQuery`: the id, and the bytes.
unfoldable pub render_query :
    (Message → Text)
    → ℕ
    → QueryContext
    → Result (Message × ℕ) × Repository
    → Result QuerySpec × (QueryContext × Repository)
render_query to_wire qid c (ok (message, proto), r) =
    let sent = message ++ set_qid qid ∷ [] in
    (ok (record { proto = proto; query = to_wire sent }), (record { message = sent }, r))
render_query to_wire qid c (err e, r) = (err e, (c, r))

module _ (dns : Dns) where
  -- `getNextQuery`
  unfoldable pub get_next_query : ℕ → Message → Action Repository (Message × ℕ)
  unfolding fill_message
  get_next_query fuel message r = fill_message message (get_next_param dns fuel r)

  -- `QueryContext::start`
  unfoldable pub start : ℕ → (Message → Text) → ℕ → Action (QueryContext × Repository) QuerySpec
  unfolding get_next_query render_query
  start fuel to_wire qid (c, r) = render_query to_wire qid c (get_next_query fuel c.message r)
