-- ===== src/Repository/State.antt =====
-- The state and the methods of `QueryRepository`, src/lib/query_repository.cc.
use queryperfpp.Base.{
  ℕ, zero, suc, ◌+◌, Bool, true, false, not, ◌&&◌, ◌||◌, Option, none, some, List, [], ◌∷◌, ◌++◌,
  ◌==◌, length, get_elem?, if◌then◌else◌, is_nil, Text, duplicate_preload, empty_preload,
  class_after_preload, dnssec_after_preload, edns_after_preload, protocol_after_preload,
  bad_protocol, open_failure, undefined, diverged, Result, ok, err, Action, throw_if, get, modify,
  ◌>>=◌, ◌>>◌,
}
use queryperfpp.Stream.{Stream, open_stream}
use queryperfpp.Repository.Dns.{Dns, Question, Rrset, Request, RequestParam}
use queryperfpp.Repository.Reader.{read_next_request}

-- `IPPROTO_UDP`, `IPPROTO_TCP` and `IPPROTO_NONE` of <netinet/in.h>.
abbrev pub ipproto_udp : ℕ
ipproto_udp = 17

abbrev pub ipproto_tcp : ℕ
ipproto_tcp = 6

abbrev pub ipproto_none : ℕ
ipproto_none = 59

-- What the source sets in the common EDNS OPT RR.
pub record Edns : Type 0 where
  pub udp_size : ℕ
  pub dnssec_aware : Bool

-- `QueryRepositoryImpl`. The iterator `current_param_` is an index, `none` while it is singular;
-- `options_` is cleared for each line, so it is a local of Repository/Line.antt.
pub record Repository : Type 0 where
  pub qclass : ℕ
  pub input : Stream
  pub params : List RequestParam
  pub use_edns : Bool
  pub use_dnssec : Bool
  pub edns : Edns
  pub proto : ℕ
  pub current : Option ℕ
  pub placeholder : RequestParam

-- `RequestParam()`. The two flags are not initialised there; nothing reads them before they are set.
abbrev pub empty_param : RequestParam
empty_param = record {
  question = none;
  proto = ipproto_none;
  authorities = [];
  use_dnssec = false;
  use_edns = false;
}

-- `params_.push_back`
unfoldable pub push_param : Result RequestParam → Action Repository (Unit {0})
push_param (err e) r = (err e, r)
push_param (ok param) r = (ok tt, record r { params = r.params ++ param ∷ [] })

abbrev pub get_query_count : Repository → ℕ
get_query_count r = length r.params

-- `*current_param_`; a singular iterator, or one at the end, must not be read.
unfoldable pub param_at : List RequestParam → Option ℕ → Result RequestParam
param_at params none = err undefined
param_at params (some i) = elim (get_elem? params i) [
  | none ↦ err undefined
  | some param ↦ ok param
]

-- `if (++current_param_ == end_param_) current_param_ = params_.begin()`
unfoldable pub advance : ℕ → Option ℕ → Option ℕ
advance n none = none
advance n (some i) = some (if i + 1 == n then 0 else i + 1)

-- The end of `load`, behind the loop.
unfoldable pub finish_load : Action Repository (Unit {0})
finish_load = do
  r ← get
  throw_if (is_nil r.params) empty_preload
  modify (λ (s : Repository). record s { current = some 0 })

module _ (dns : Dns) where
  -- The constructor over a stream, with `initialize`.
  unfoldable pub new : Stream → Repository
  new input = record {
    qclass = dns.class_in;
    input = input;
    params = [];
    use_edns = true;
    use_dnssec = true;
    edns = record { udp_size = 4096; dnssec_aware = true };
    proto = ipproto_udp;
    current = none;
    placeholder = empty_param;
  }

  -- The constructor over a file name, by what the file holds; `none` if it cannot be opened.
  unfoldable pub new_file : Option Text → Result Repository
  unfolding new open_stream
  new_file none = err open_failure
  new_file (some text) = ok (new (open_stream text true))

  -- `setEDNSPolicy`. It reads through the question's pointer.
  unfoldable pub set_edns_policy : Bool → Bool → RequestParam → Result RequestParam
  set_edns_policy dnssec edns param = elim param.question [
    | none ↦ err undefined
    | some q ↦ ok (
        if q.qtype == dns.axfr || q.qtype == dns.ixfr
        then record param { use_dnssec = false; use_edns = false }
        else record param { use_dnssec = dnssec; use_edns = edns })
  ]

  -- The parameters of a request, as `load` and `getNextParam` fill them.
  unfoldable pub request_param : Repository → Option Question → List Rrset → Result RequestParam
  unfolding set_edns_policy
  request_param r question authorities =
      set_edns_policy r.use_dnssec r.use_edns
        (record empty_param { question = question; proto = r.proto; authorities = authorities })

  -- Reads a request and leaves the stream behind it.
  unfoldable pub read_request : ℕ → Bool → Action Repository (Option Request)
  read_request fuel rewind r =
      let (request, s) = read_next_request dns r.qclass fuel rewind r.input in
      (request, record r { input = s })

  -- The body of the loop of `load`, behind the read: a request is pushed, and `again` goes on.
  unfoldable pub load_or :
      Result (Option Request) → Action Repository (Unit {0}) → Action Repository (Unit {0})
  load_or (err e) again r = (err e, r)
  load_or (ok none) again r = (ok tt, r)
  load_or (ok (some (question, authorities))) again r =
      (push_param (request_param r (some question) authorities) >> again) r

  -- The `while` loop of `load`. Without rewinding, a read takes a character or is the last.
  unfoldable pub load_loop : ℕ → Action Repository (Unit {0})
  load_loop zero r = (err diverged, r)
  load_loop (suc fuel) r =
      let (request, r') = read_request (suc (length r.input.rest)) false r in
      load_or request (load_loop fuel) r'

  unfoldable pub load : Action Repository (Unit {0})
  load = do
    r ← get
    throw_if (not (is_nil r.params)) duplicate_preload
    load_loop (suc (length r.input.rest))
    finish_load

  -- The part of `getNextParam` behind the read: the placeholder is filled and returned.
  unfoldable pub fill_placeholder : Result (Option Request) → Action Repository RequestParam
  unfolding request_param
  fill_placeholder (err e) r = (err e, r)
  fill_placeholder (ok none) r = (err undefined, r)
  fill_placeholder (ok (some (question, authorities))) r =
      elim (request_param r (some question) authorities) [
        | err e ↦ (err e, r)
        | ok param ↦ (ok param, record r { placeholder = param })
      ]

  -- `getNextParam`: the next preloaded request, round and round, or one read with rewinding.
  unfoldable pub get_next_param : ℕ → Action Repository RequestParam
  unfolding param_at advance read_request fill_placeholder
  get_next_param fuel r =
      if not (is_nil r.params)
      then (param_at r.params r.current, record r { current = advance (length r.params) r.current })
      else let (request, r') = read_request fuel true r in fill_placeholder request r'

-- The four setters, each refused after a preload.
unfoldable pub set_query_class : ℕ → Action Repository (Unit {0})
set_query_class qclass = do
  r ← get
  throw_if (not (is_nil r.params)) class_after_preload
  modify (λ (s : Repository). record s { qclass = qclass })

unfoldable pub set_dnssec : Bool → Action Repository (Unit {0})
set_dnssec on = do
  r ← get
  throw_if (not (is_nil r.params)) dnssec_after_preload
  modify (λ (s : Repository). record s {
    use_dnssec = on;
    edns = record { udp_size = s.edns.udp_size; dnssec_aware = on };
  })

unfoldable pub set_edns : Bool → Action Repository (Unit {0})
set_edns on = do
  r ← get
  throw_if (not (is_nil r.params)) edns_after_preload
  modify (λ (s : Repository). record s { use_edns = on })

unfoldable pub set_protocol : ℕ → Action Repository (Unit {0})
set_protocol proto = do
  r ← get
  throw_if (not (is_nil r.params)) protocol_after_preload
  throw_if (not (proto == ipproto_udp) && not (proto == ipproto_tcp)) bad_protocol
  modify (λ (s : Repository). record s { proto = proto })
