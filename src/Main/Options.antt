-- ===== src/Main/Options.antt =====
-- The options of src/bin/queryperfpp/queryperfpp.cc: `main` up to the `try` block.
use queryperfpp.Base.{
  ◌==◌, ℕ, Bool, true, false, not, ◌&&◌, Option, none, some, List, [], ◌∷◌, ◌==◌, if◌then◌else◌,
  Text, codes, text_eq, usage_exit, bad_flag, both_inputs, unknown_protocol, Result, ok, err,
}
use queryperfpp.Repository.State.{ipproto_udp, ipproto_tcp}
use queryperfpp.Dispatcher.Settings.{default_server}

-- The variables of `main` that the options set. The port and the time limit are texts; the defaults
-- are those of the dispatcher, printed.
pub record Options : Type 0 where
  pub qclass_txt : Text
  pub data_file : Option Text
  pub dnssec_flag_txt : Option Text
  pub edns_flag_txt : Option Text
  pub server_address : Text
  pub proto_txt : Text
  pub server_port_str : Text
  pub time_limit_str : Text
  pub num_threads_txt : Option Text
  pub query_txt : Option Text
  pub preload : Bool

unfoldable pub default_options : Options
default_options = record {
  qclass_txt = codes "IN";
  data_file = none;
  dnssec_flag_txt = none;
  edns_flag_txt = none;
  server_address = default_server;
  proto_txt = codes "udp";
  server_port_str = codes "53";
  time_limit_str = codes "30";
  num_threads_txt = none;
  query_txt = none;
  preload = false;
}

-- One turn of the loop: the letter that `getopt` returns, and `optarg`. Any letter that is not listed
-- goes to `usage`, which exits.
unfoldable pub take_option : ℕ → Text → Options → Result Options
take_option ch optarg o =
    if ch == b'C'
    then ok (record o { qclass_txt = optarg })
    else if ch == b'd'
    then ok (record o { data_file = some optarg })
    else if ch == b'D'
    then ok (record o { dnssec_flag_txt = some optarg })
    else if ch == b'e'
    then ok (record o { edns_flag_txt = some optarg })
    else if ch == b'n'
    then ok (record o { num_threads_txt = some optarg })
    else if ch == b's'
    then ok (record o { server_address = optarg })
    else if ch == b'p'
    then ok (record o { server_port_str = optarg })
    else if ch == b'P'
    then ok (record o { proto_txt = optarg })
    else if ch == b'Q'
    then ok (record o { query_txt = some optarg })
    else if ch == b'l'
    then ok (record o { time_limit_str = optarg })
    else if ch == b'L'
    then ok (record o { preload = true })
    else err usage_exit

-- The loop over `getopt`.
unfoldable pub take_options : List (ℕ × Text) → Options → Result Options
unfolding take_option
take_options [] o = ok o
take_options ((ch, optarg) ∷ rest) o = elim (take_option ch optarg o) [
  | err e ↦ err e
  | ok o' ↦ take_options rest o'
]

-- `parseOnOffFlag`
unfoldable pub parse_on_off_flag : Option Text → Bool → Result Bool
parse_on_off_flag none default_val = ok default_val
parse_on_off_flag (some optarg) default_val =
    if text_eq optarg (codes "on")
    then ok true
    else if text_eq optarg (codes "off")
    then ok false
    else err bad_flag

-- Where the queries come from: `-d`, where "-" is the standard input, or the text of `-Q`.
pub data Input : Type 0 where
  data_file : Text → Input
  query_text : Text → Input

unfoldable pub choose_input : Option Text → Option Text → Result Input
choose_input none none = ok (data_file (codes "-"))
choose_input (some file) none = ok (data_file file)
choose_input none (some text) = ok (query_text text)
choose_input (some file) (some text) = err both_inputs

unfoldable pub choose_proto : Text → Result ℕ
choose_proto proto_str =
    if not (text_eq proto_str (codes "udp")) && not (text_eq proto_str (codes "tcp"))
    then err unknown_protocol
    else ok (if text_eq proto_str (codes "udp") then ipproto_udp else ipproto_tcp)

-- What the checks leave.
pub record Checked : Type 0 where
  pub input : Input
  pub dnssec_flag : Bool
  pub edns_flag : Bool
  pub proto : ℕ

-- The checks, in the order of the source.
unfoldable pub validate : Options → Result Checked
unfolding choose_input parse_on_off_flag choose_proto
validate o = elim (choose_input o.data_file o.query_txt) [
  | err e ↦ err e
  | ok input ↦ elim (parse_on_off_flag o.dnssec_flag_txt true) [
    | err e ↦ err e
    | ok dnssec_flag ↦ elim (parse_on_off_flag o.edns_flag_txt true) [
      | err e ↦ err e
      | ok edns_flag ↦ elim (choose_proto o.proto_txt) [
        | err e ↦ err e
        | ok proto ↦ ok (record {
          input = input;
          dnssec_flag = dnssec_flag;
          edns_flag = edns_flag;
          proto = proto;
        })
      ]
    ]
  ]
]
