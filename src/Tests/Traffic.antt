-- ===== src/Tests/Traffic.antt =====
-- The theorems about the queries of a session over src/lib/query_repository.cc at a sample input.
use queryperfpp.Base.{Gives, true, ◌≡◌, refl, ok, [], ◌∷◌, List, arith}
use queryperfpp.Stream.{open_stream}
use queryperfpp.Repository.State.{Repository, load}
use queryperfpp.Repository.Requests.{lines}
use queryperfpp.Context.{QueryContext}
use queryperfpp.Dispatcher.Types.{Dispatcher}
use queryperfpp.Dispatcher.Loop.{Delivery, response, session_timeout}
use queryperfpp.Dispatcher.Session.{run, start_session}
use queryperfpp.Dispatcher.Settings.{new}
use queryperfpp.Dispatcher.Invariant.Session.{IsFresh}
use queryperfpp.Traffic.{context_source}
use queryperfpp.Traffic.Returning.{Returns}
use queryperfpp.Traffic.Requests.{
  SentFirst, start_session-preloaded, SentInTurn, run-streaming, run-preloaded,
}
use queryperfpp.Tests.Samples.{sample_dns, sample_text, sample_repository}
use queryperfpp.Tests.Main.{sample_qid}
use queryperfpp.Tests.Context.{render_from, render-forgets}
use queryperfpp.Tests.Repository.{sample-some_request}

abbrev over_sample : Dispatcher QueryContext Repository
over_sample = new true (sample_repository sample_text)

over_sample-IsFresh : IsFresh over_sample
unfolding new
over_sample-IsFresh = record {
  unsent = refl;
  uncompleted = refl;
  first_id = refl;
  empty = refl;
  sending = refl;
  running = refl;
  window_open = omega arith;
  no_socket = refl;
}

abbrev answers : List Delivery
answers = response (1 ∷ []) ∷ session_timeout ∷ []

run-streaming_example :
    Gives
      (SentInTurn sample_dns 9
        (render_from [])
        (render-forgets [])
        (sample_repository sample_text)
        sample_text)
      (run (context_source sample_dns 9 (render_from [])) sample_qid 5 answers 9 over_sample)
unfolding open_stream lines new
run-streaming_example =
    run-streaming sample_dns 9 (render_from []) (render-forgets []) sample_text over_sample
      over_sample-IsFresh refl refl refl sample-some_request sample_qid 5 9 answers (omega arith)
      (omega arith) (omega arith)

run-preloaded_example :
    ((load sample_dns (sample_repository sample_text)).0 ≡ ok tt)
    × Gives
        (SentInTurn sample_dns 9
          (render_from [])
          (render-forgets [])
          (sample_repository sample_text)
          sample_text)
        (run
          (context_source sample_dns 9 (render_from []))
          sample_qid
          5
          answers
          9
          (record over_sample { repository = (load sample_dns (sample_repository sample_text)).1 }))
unfolding open_stream lines new
run-preloaded_example =
    run-preloaded sample_dns 9 (render_from []) (render-forgets []) sample_text over_sample
      over_sample-IsFresh refl refl refl sample-some_request sample_qid 5 9 answers (omega arith)
      (omega arith)

start_session-preloaded_example :
    ((load sample_dns (sample_repository sample_text)).0 ≡ ok tt)
    × Returns
        (SentFirst sample_dns 9
          (render_from [])
          (render-forgets [])
          over_sample.window
          (sample_repository sample_text)
          sample_text)
        (start_session
          (context_source sample_dns 9 (render_from []))
          5
          (record over_sample { repository = (load sample_dns (sample_repository sample_text)).1 }))
unfolding open_stream lines new
start_session-preloaded_example =
    start_session-preloaded sample_dns 9 (render_from []) (render-forgets []) sample_text
      over_sample over_sample-IsFresh refl refl refl sample-some_request 5 refl (omega arith)
      (omega arith)
