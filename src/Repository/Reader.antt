-- ===== src/Repository/Reader.antt =====
-- The reading of lines: the loops of `QueryRepositoryImpl::readNextRequest` in
-- src/lib/query_repository.cc.
pub mod Takes
pub mod Forward
pub mod Rewind
pub mod Round
pub mod Endless
use queryperfpp.Base.{
  ℕ, zero, suc, Bool, not, ◌&&◌, Option, none, some, [], ◌∷◌, ◌==◌, if◌then◌else◌, is_nil, Text,
  Error, too_long, read_failure, diverged, Result, ok, err,
}
use queryperfpp.Stream.{Stream, fails, getline, clear, seek_start}
use queryperfpp.Repository.Dns.{Dns, Request}
use queryperfpp.Repository.Line.{parse_line}

-- `MAX_EMPTY_LOOP`
abbrev pub max_empty_loop : ℕ
max_empty_loop = 1000

-- A line to parse, the end of the input, or an exception.
pub data LineRead : Type 0 where
  line : Text → LineRead
  ended : LineRead
  failed : Error → LineRead

-- Lines that start with ';' are cleared.
unfoldable pub strip_comment : Text → Text
strip_comment [] = []
strip_comment (c ∷ s) = if c == b';' then [] else c ∷ s

-- What the tests on the stream behind `getline` lead to: go on with a stream, or leave.
pub data Checked : Type 0 where
  go_on : Stream → Checked
  leave : LineRead → Checked

unfoldable pub check_stream : Bool → Text → Stream → Checked
check_stream rewind text s =
    if s.eof_bit
    then (if rewind
        then go_on (seek_start (clear s))
        else if is_nil text
        then leave ended
        else go_on s)
    else if fails s
    then leave (failed read_failure)
    else go_on s

-- A round of the loop behind the tests: an empty line is followed by another round.
unfoldable pub line_or : Text → Stream → (Stream → LineRead × Stream) → LineRead × Stream
line_or [] s again = again s
line_or (c ∷ rest) s again = (line (c ∷ rest), s)

unfoldable pub leave_or : Checked → Stream → Text → (Stream → LineRead × Stream) → LineRead × Stream
leave_or (leave r) s text again = (r, s)
leave_or (go_on s') s text again = line_or (strip_comment text) s' again

-- `while (line.empty())`, by the number of rounds that `MAX_EMPTY_LOOP` leaves.
unfoldable pub next_line : ℕ → Bool → Stream → LineRead × Stream
next_line zero rewind s = (failed too_long, s)
next_line (suc rounds) rewind s =
    let (text, s') = getline s [] in
    leave_or (check_stream rewind text s') s' text (next_line rounds rewind)

-- The line's request ends the loop; a line that gives none is followed by another.
unfoldable pub request_or :
    Option Request
    → Stream
    → (Stream → Result (Option Request) × Stream)
    → Result (Option Request) × Stream
request_or none s again = again s
request_or (some request) s again = (ok (some request), s)

module _ (dns : Dns) (qclass : ℕ) where
  unfoldable pub parse_read :
      LineRead
      → Stream
      → (Stream → Result (Option Request) × Stream)
      → Result (Option Request) × Stream
  parse_read ended s again = (ok none, s)
  parse_read (failed e) s again = (err e, s)
  parse_read (line text) s again = request_or (parse_line dns qclass text) s again

  -- `while (!question)`: `ok none` is the null question at the end of the input.
  unfoldable pub read_loop : ℕ → Bool → Stream → Result (Option Request) × Stream
  read_loop zero rewind s = (err diverged, s)
  read_loop (suc fuel) rewind s =
      let (r, s') = next_line max_empty_loop rewind s in parse_read r s' (read_loop fuel rewind)

  -- `readNextRequest`
  unfoldable pub read_next_request : ℕ → Bool → Stream → Result (Option Request) × Stream
  read_next_request fuel rewind s =
      if not rewind && s.eof_bit then (ok none, s) else read_loop fuel rewind s
