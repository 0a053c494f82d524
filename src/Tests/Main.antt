-- ===== src/Tests/Main.antt =====
-- The theorems about src/bin/queryperfpp/queryperfpp.cc at sample options and workers.
use queryperfpp.Main.Options.{take_option}
use queryperfpp.Main.Usage.{is_ok, holds, explained, usage, take_option-explained}
use queryperfpp.Base.{
  codes, refl, ◌≡◌, refl, map, Option, ℕ, true, List, [], ◌∷◌, length, Text, some, none,
}
use queryperfpp.Dispatcher.Loop.{session_timeout, response}
use queryperfpp.Main.Options.{Checked, query_text, default_options}
use queryperfpp.Main.Prepare.{Env}
use queryperfpp.Main.Statistics.{all_sent}
use queryperfpp.Main.Workers.{Worker, work}
use queryperfpp.Tests.Samples.{sample_source, sample_text, sample_stream, sample_dispatcher}

abbrev pub sample_env : Env
sample_env = record {
  files = λ _. none;
  stdin = sample_stream [];
  cast_u16 = λ t. some (length t);
  cast_size = λ t. some (length t);
}

abbrev sample_checked : Checked
sample_checked = record {
  input = query_text sample_text;
  dnssec_flag = true;
  edns_flag = true;
  proto = 17;
}

abbrev pub sample_qid : Text → Option ℕ
sample_qid [] = none
sample_qid (c ∷ t) = some c

abbrev sample_workers : List (Worker (Unit {0}) (Unit {0}))
sample_workers =
    record {
      dispatcher = sample_dispatcher [];
      deliveries = response (1 ∷ []) ∷ session_timeout ∷ [];
      now = 5;
      later = 9;
    }
    ∷ []

sample-sent : all_sent (map (work (sample_source 17) sample_qid) sample_workers) ≡ 3
unfolding work queryperfpp.Dispatcher.Session.run queryperfpp.Dispatcher.Session.start_session
    queryperfpp.Dispatcher.Session.open_session queryperfpp.Dispatcher.Session.first_queries
    queryperfpp.Dispatcher.Session.send_all queryperfpp.Dispatcher.Session.make_pool
    queryperfpp.Dispatcher.Session.run_loop queryperfpp.Dispatcher.Session.unless
    queryperfpp.Dispatcher.Query.dispatch_query queryperfpp.Dispatcher.Loop.deliver
    queryperfpp.Dispatcher.Loop.response_callback queryperfpp.Dispatcher.Loop.parsed
    queryperfpp.Dispatcher.Loop.restart_query queryperfpp.Dispatcher.Loop.restart_found
    queryperfpp.Dispatcher.Loop.find_if queryperfpp.Dispatcher.Loop.count_completed
    queryperfpp.Dispatcher.Loop.put_back queryperfpp.Dispatcher.Loop.splice_end
    queryperfpp.Dispatcher.Loop.clear_socket_of queryperfpp.Dispatcher.Loop.drop_event
    queryperfpp.Dispatcher.Loop.on_event queryperfpp.Dispatcher.Loop.parse_tcp
    queryperfpp.Dispatcher.Loop.query_timer_callback
    queryperfpp.Dispatcher.Loop.response_tcp_callback
    queryperfpp.Dispatcher.Loop.session_timer_callback
sample-sent = refl

take_option-explained_example :
    is_ok (take_option b'l' (codes "60") default_options) ≡ holds b'l' (explained usage)
take_option-explained_example = take_option-explained b'l' (codes "60") default_options
