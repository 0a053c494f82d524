-- ===== src/Tests/Samples.antt =====
-- A small name server library, an input and a source of queries, for the tests.
use queryperfpp.Base.{
  ℕ, true, false, Option, none, some, List, [], ◌∷◌, if◌then◌else◌, Text, codes, text_eq, length,
  ok,
}
use queryperfpp.Stream.{Stream}
use queryperfpp.Repository.Dns.{Dns}
use queryperfpp.Repository.State.{Repository}
use queryperfpp.Dispatcher.Types.{Source, QueryEvent, Dispatcher}

abbrev pub sample_rrtype : Text → Option ℕ
sample_rrtype t =
    if text_eq t (codes "A")
    then some 1
    else if text_eq t (codes "TYPE251")
    then some 251
    else if text_eq t (codes "TYPE252")
    then some 252
    else none

-- Every name is good; a number is its count of digits.
abbrev pub sample_dns : Dns
sample_dns = record {
  rrtype = sample_rrtype;
  rrclass = λ t. if text_eq t (codes "IN") then some 1 else none;
  name = λ t. some t;
  soa_rdata = λ _ t. some t;
  axfr = 252;
  ixfr = 251;
  class_in = 1;
  cast_u32 = λ t. some (length t);
  show_u32 = λ _. codes "0";
}

-- The text `w A`, a comment, `v AXFR`, and a line that gives no request.
abbrev pub sample_text : Text
sample_text = codes "w A\n;c\nv AXFR\nbad\n"

abbrev pub sample_stream : Text → Stream
sample_stream text = record {
  content = text;
  rest = text;
  eof_bit = false;
  fail_bit = false;
  bad_bit = false;
  seekable = true;
}

-- A repository over a text, before any preload.
abbrev pub sample_repository : Text → Repository
sample_repository text = record {
  qclass = 1;
  input = sample_stream text;
  params = [];
  use_edns = true;
  use_dnssec = true;
  edns = record { udp_size = 4096; dnssec_aware = true };
  proto = 17;
  current = none;
  placeholder = record {
    question = none;
    proto = 59;
    authorities = [];
    use_dnssec = false;
    use_edns = false;
  };
}

-- A source without state, whose queries go over one protocol.
abbrev pub sample_source : ℕ → Source (Unit {0}) (Unit {0})
sample_source proto = record {
  create = tt;
  start = λ qid s. (ok (record { proto = proto; query = qid ∷ [] }), s);
}

abbrev pub sample_dispatcher : List (QueryEvent (Unit {0})) → Dispatcher (Unit {0}) (Unit {0})
sample_dispatcher events = record {
  manager = record { calls = []; outcomes = []; stopped = false };
  repository = tt;
  internal = true;
  udp_socket = false;
  session_timer = false;
  server_address = codes "::1";
  server_port = 53;
  test_duration = 30;
  query_timeout = 5;
  keep_sending = true;
  window = 2;
  qid = 0;
  outstanding = events;
  queries_sent = 0;
  queries_completed = 0;
  start_time = none;
  end_time = none;
}
