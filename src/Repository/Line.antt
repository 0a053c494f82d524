-- ===== src/Repository/Line.antt =====
-- One line of query data: `QueryRepositoryImpl::parseQueryOptions` and the part of
-- `readNextRequest` behind the reading of a line, in src/lib/query_repository.cc.
pub mod Options
pub mod Describe
pub mod Print
use queryperfpp.Base.{
  ℕ, zero, suc, true, false, Option, none, some, List, [], ◌∷◌, ◌++◌, ◌==◌, length, if◌then◌else◌,
  Text, codes, text_eq, no_equals, bad_option_value, diverged, Result, ok, err,
}
use queryperfpp.Stream.{Stream, fails, extract, open_stream}
use queryperfpp.Repository.Dns.{Dns, Question, Rrset, Request}

-- `option.find('=')`, then the two calls of `substr`; `none` is `npos`.
unfoldable pub cons_name : ℕ → Option (Text × Text) → Option (Text × Text)
cons_name c none = none
cons_name c (some (optname, optarg)) = some (c ∷ optname, optarg)

unfoldable pub split_option : Text → Option (Text × Text)
unfolding cons_name
split_option [] = none
split_option (c ∷ s) = if c == b'=' then some ([], s) else cons_name c (split_option s)

-- `aux_typemap_`, as `initialize` fills it.
abbrev pub aux_typemap : List (Text × Text)
aux_typemap =
    (codes "A6", codes "TYPE38")
    ∷ (codes "ANY", codes "TYPE255")
    ∷ (codes "AXFR", codes "TYPE252")
    ∷ (codes "IXFR", codes "TYPE251")
    ∷ []

-- `aux_typemap_.find(qtype_text)`: the mapped text, or the text itself.
unfoldable pub map_type : List (Text × Text) → Text → Text
map_type [] qtype_text = qtype_text
map_type ((key, mapped) ∷ m) qtype_text =
    if text_eq key qtype_text then mapped else map_type m qtype_text

-- The value of `serial=`.
set_serial : Option ℕ → Result ℕ
set_serial none = err bad_option_value
set_serial (some n) = ok n

-- For IXFR, the RRset of the authority section. If `createRdata` throws, the question is already
-- set, and goes out without it.
unfoldable pub ixfr_authorities : Question → Option Text → List Rrset
ixfr_authorities q none = []
ixfr_authorities q (some rdata) =
    record { owner = q.qname; rrclass = q.qclass; rrtype = q.qtype; ttl = 0; rdata = rdata } ∷ []

unfoldable pub question_of : ℕ → Option ℕ → Option Text → Option Question
question_of qclass none qname = none
question_of qclass (some qtype) none = none
question_of qclass (some qtype) (some qname) =
    some (record { qname = qname; qclass = qclass; qtype = qtype })

module _ (dns : Dns) where
  open dns use {rrtype, name, soa_rdata, ixfr, cast_u32, show_u32}

  -- One option: `serial` is the only known name, any other is skipped.
  unfoldable pub set_option : Text → Text → ℕ → Result ℕ
  unfolding set_serial
  set_option optname optarg serial =
      if text_eq optname (codes "serial") then set_serial (cast_u32 optarg) else ok serial

  unfoldable pub read_option : Option (Text × Text) → ℕ → Result ℕ
  unfolding set_option
  read_option none serial = err no_equals
  read_option (some (optname, optarg)) serial = set_option optname optarg serial

  -- `parseQueryOptions`, from the serial so far to the last one.
  unfoldable pub parse_query_options : ℕ → Stream → ℕ → Result ℕ
  parse_query_options zero ss serial = err diverged
  parse_query_options (suc fuel) ss serial = elim ss.eof_bit [
    | true ↦ ok serial
    | false ↦
        let (option, ss') = extract ss [] in
        elim (read_option (split_option option) serial) [
          | err e ↦ err e
          | ok serial' ↦ parse_query_options fuel ss' serial'
        ]
  ]

  -- `if (!ss.eof()) parseQueryOptions(ss)`. Every call but the last takes at least one character.
  unfoldable pub query_options : Stream → Result ℕ
  unfolding parse_query_options
  query_options ss = parse_query_options (suc (suc (length ss.rest))) ss 0

  -- The SOA text: ". . SERIAL 0 0 0 0".
  abbrev pub soa_text : ℕ → Text
  soa_text serial = codes ". . " ++ (show_u32 serial ++ codes " 0 0 0 0")

  unfoldable pub authorities_of : Question → ℕ → List Rrset
  unfolding ixfr_authorities
  authorities_of q serial =
      if q.qtype == ixfr then ixfr_authorities q (soa_rdata q.qclass (soa_text serial)) else []

  unfoldable pub with_authorities : ℕ → Option Question → Option Request
  unfolding authorities_of
  with_authorities serial none = none
  with_authorities serial (some q) = some (q, authorities_of q serial)

  -- The second `try` block: `none` is a caught exception, with no question set.
  unfoldable pub build_request : ℕ → Text → Text → Result ℕ → Option Request
  unfolding map_type question_of with_authorities
  build_request qclass qname_text qtype_text (err e) = none
  build_request qclass qname_text qtype_text (ok serial) =
      with_authorities serial
        (question_of qclass (rrtype (map_type aux_typemap qtype_text)) (name qname_text))

  -- A line that is neither empty nor a comment: the request, or `none` for a line that is skipped.
  unfoldable pub parse_line : ℕ → Text → Option Request
  unfolding query_options build_request
  parse_line qclass line =
      let (qname_text, ss) = extract (open_stream line true) [] in
      let (qtype_text, ss') = extract ss [] in
      if fails ss' then none else build_request qclass qname_text qtype_text (query_options ss')
