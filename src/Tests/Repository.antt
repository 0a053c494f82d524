-- ===== src/Tests/Repository.antt =====
-- The theorems about src/lib/query_repository.cc at a sample input.
use queryperfpp.Base.{
  true, ap, ◌∙◌, Option, diverged, err, none, false, ◌%◌, ◌<◌, ◌≡◌, refl, List, [], ◌∷◌, map, Text,
  codes, text_eq, length, ok, arith,
}
use queryperfpp.Stream.{extract, open_stream, skip_space, is_space, after_word, word_of}
use queryperfpp.Repository.Dns.{Request}
use queryperfpp.Stream.Words.{words, ends_in_space}
use queryperfpp.Repository.Line.{parse_line, build_request}
use queryperfpp.Repository.Line.Describe.{describe, parse_line-describe, parse_line-trailing}
use queryperfpp.Repository.Line.Print.{QueryOption, set_options, parse_line-print}
use queryperfpp.Repository.State.{load, get_next_param}
use queryperfpp.Repository.Requests.{filled, parsed_lines, cons_request, lines, requests, blanks}
use queryperfpp.Repository.Reader.{read_next_request}
use queryperfpp.Repository.Reader.Rewind.{over}
use queryperfpp.Repository.Reader.Endless.{read_next_request-endless}
use queryperfpp.Repository.Reader.Takes.{IsOpen}
use queryperfpp.Repository.Reader.Forward.{Reads, read_next_request-Reads}
use queryperfpp.Repository.Preload.{Loads, load-Loads, param_of}
use queryperfpp.Repository.Streaming.Preloaded.{streaming-load}
use queryperfpp.Repository.Cycle.{Returns, after_calls, load-serves}
use queryperfpp.Tests.Samples.{sample_dns, sample_text, sample_stream, sample_repository}

sample-IsOpen : (t : Text) → IsOpen (sample_stream t)
sample-IsOpen t = record { sound = refl; whole = λ _. refl; done = λ e. cc }

abbrev sample_requests : List Request
sample_requests =
    (record { qname = codes "w"; qclass = 1; qtype = 1 }, [])
    ∷ (record { qname = codes "v"; qclass = 1; qtype = 252 }, [])
    ∷ []

sample-requests : requests sample_dns 1 sample_text ≡ sample_requests
unfolding lines parse_line text_eq extract open_stream skip_space is_space after_word word_of
sample-requests = refl

sample-blanks : blanks (lines sample_text) < 1000
unfolding lines
sample-blanks = omega arith

load-Loads_example :
    Loads sample_dns
      (sample_repository sample_text)
      (requests sample_dns 1 sample_text)
      (load sample_dns (sample_repository sample_text))
load-Loads_example =
    load-Loads sample_dns (sample_repository sample_text) refl (sample-IsOpen sample_text)
      sample-blanks

load-serves_example :
    ((load sample_dns (sample_repository sample_text)).0 ≡ ok tt)
    × (let params = map (param_of sample_dns (sample_repository sample_text)) sample_requests in
        Returns params
          (5 % length params)
          (get_next_param sample_dns 9
            (after_calls sample_dns 9 5 (load sample_dns (sample_repository sample_text)).1)).0)
load-serves_example =
    load-serves sample_dns 9 5 (sample_repository sample_text) _ _ refl (sample-IsOpen sample_text)
      sample-blanks sample-requests

read_next_request-Reads_example :
    Reads sample_dns 1
      (requests sample_dns 1 sample_text)
      (length sample_text)
      (read_next_request sample_dns 1 40 false (sample_stream sample_text))
read_next_request-Reads_example =
    read_next_request-Reads sample_dns 1 40 (sample_stream sample_text) (sample-IsOpen sample_text)
      (omega arith) sample-blanks

parse_line-trailing_example : parse_line sample_dns 1 (codes "w A\r") ≡ none
unfolding is_space
parse_line-trailing_example = parse_line-trailing sample_dns 1 (codes "w A\r") refl

abbrev sample_options : List QueryOption
sample_options = (codes "serial", codes "123") ∷ (codes "x", []) ∷ []

parse_line-print_example :
    parse_line sample_dns 1 (codes "w IXFR serial=123 x=")
    ≡ build_request sample_dns 1
        (codes "w")
        (codes "IXFR")
        (set_options sample_dns sample_options 0)
unfolding is_space
parse_line-print_example =
    parse_line-print sample_dns 1 (codes "w") (codes "IXFR") sample_options (refl, tt)
      (refl, (refl, (refl, (refl, tt))))
      (
        (refl, (refl, (refl, (refl, (refl, (refl, tt)))))),
        (
          (refl, (refl, (refl, (refl, (refl, (refl, tt)))))),
          ((refl, (refl, (refl, tt))), ((refl, tt), ((refl, tt), (tt, tt)))),
        ),
      )

parse_line-describe_example :
    parse_line sample_dns 1 (codes " w  A ")
    ≡ describe sample_dns 1 (words (codes " w  A ")) (ends_in_space (codes " w  A "))
parse_line-describe_example = parse_line-describe sample_dns 1 (codes " w  A ")

pub sample-some_request : 0 < length (requests sample_dns 1 sample_text)
sample-some_request = rw sample-requests (omega arith)

streaming-load_example :
    (get_next_param sample_dns 9 (after_calls sample_dns 9 5 (sample_repository sample_text))).0
    ≡ (get_next_param sample_dns 9
        (after_calls sample_dns 9 5 (load sample_dns (sample_repository sample_text)).1)).0
unfolding open_stream lines
streaming-load_example =
    streaming-load sample_dns sample_text 9 5 (sample_repository sample_text) refl refl
      sample-some_request (omega arith) (omega arith)

-- An input of one line, which ends in a carriage return.
abbrev refused_text : Text
refused_text = codes "w A\r\n"

refused-line : filled (lines refused_text) ≡ codes "w A\r" ∷ []
unfolding lines
refused-line = refl

refused-requests : requests sample_dns 1 refused_text ≡ []
unfolding is_space
refused-requests =
    ap (parsed_lines sample_dns 1) refused-line
    ∙ ap (λ (o : Option Request). cons_request o [])
        (parse_line-trailing sample_dns 1 (codes "w A\r") refl)

read_next_request-endless_example :
    (read_next_request sample_dns 1 50 true (over refused_text refused_text)).0 ≡ err diverged
unfolding lines
read_next_request-endless_example =
    read_next_request-endless sample_dns 1 refused_text (codes "w A\r") [] refused-line
      refused-requests (omega arith) 50
