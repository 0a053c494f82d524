-- ===== src/Stream.antt =====
-- The standard streams as src/lib/query_repository.cc uses them: `getline`, the extraction of a
-- word by `>>`, `clear`, `seekg(0)` and the three state bits. A stream is its whole content and the
-- part of it that is still ahead; one that cannot seek (a pipe) fails `seekg`.
pub mod Lines
pub mod Decimal
pub mod Words
pub mod Extract
use queryperfpp.Base.{
  ℕ, ◌≡◌, Bool, true, false, not, ◌&&◌, ◌||◌, List, [], ◌∷◌, ◌==◌, leb, if◌then◌else◌, is_nil, Text,
}

pub record Stream : Type 0 where
  pub content : Text
  pub rest : Text
  pub eof_bit : Bool
  pub fail_bit : Bool
  pub bad_bit : Bool
  pub seekable : Bool

-- A stream that has just been opened.
unfoldable pub open_stream : Text → Bool → Stream
open_stream text seekable = record {
  content = text;
  rest = text;
  eof_bit = false;
  fail_bit = false;
  bad_bit = false;
  seekable = seekable;
}

abbrev pub good : Stream → Bool
good s = not (s.eof_bit || (s.fail_bit || s.bad_bit))

-- `fail()` is true of the bad bit too.
abbrev pub fails : Stream → Bool
fails s = s.fail_bit || s.bad_bit

-- The text up to the first newline, the text behind it, and whether there is one.
unfoldable pub line_of : Text → Text
line_of [] = []
line_of (c ∷ s) = if c == 10 then [] else c ∷ line_of s

unfoldable pub after_line : Text → Text
after_line [] = []
after_line (c ∷ s) = if c == 10 then s else after_line s

unfoldable pub has_newline : Text → Bool
has_newline [] = false
has_newline (c ∷ s) = c == 10 || has_newline s

-- `getline(is, line)`. A stream that is not good fails and leaves the line; reading to the end sets
-- the eof bit, and the fail bit too if there was nothing left.
unfoldable pub getline : Stream → Text → Text × Stream
getline s line =
    if good s
    then (
      line_of s.rest,
      record s {
        rest = after_line s.rest;
        eof_bit = not (has_newline s.rest);
        fail_bit = is_nil s.rest;
      },
    )
    else (line, record s { fail_bit = true })

-- `isspace` in the C locale.
unfoldable pub is_space : ℕ → Bool
is_space c = c == 32 || (leb 9 c && leb c 13)

unfoldable pub skip_space : Text → Text
skip_space [] = []
skip_space (c ∷ s) = if is_space c then skip_space s else c ∷ s

unfoldable pub word_of : Text → Text
word_of [] = []
word_of (c ∷ s) = if is_space c then [] else c ∷ word_of s

unfoldable pub after_word : Text → Text
after_word [] = []
after_word (c ∷ s) = if is_space c then c ∷ s else after_word s

-- The part of `is >> word` behind the skipped space.
unfoldable pub extract_from : Text → Stream → Text → Text × Stream
extract_from [] s word = (word, record s { rest = []; eof_bit = true; fail_bit = true })
extract_from (c ∷ t) s word =
    let after = after_word (c ∷ t) in
    (word_of (c ∷ t), record s { rest = after; eof_bit = is_nil after })

-- `is >> word`.
unfoldable pub extract : Stream → Text → Text × Stream
unfolding extract_from
extract s word =
    if good s then extract_from (skip_space s.rest) s word else (word, record s { fail_bit = true })

-- `is.clear()`
unfoldable pub clear : Stream → Stream
clear s = record s { eof_bit = false; fail_bit = false; bad_bit = false }

-- `is.seekg(0)`: it drops the eof bit first, does nothing on a failed stream, and fails on a stream
-- that cannot seek.
unfoldable pub seek_start : Stream → Stream
seek_start s =
    let t = record s { eof_bit = false } in
    if fails t
    then t
    else if t.seekable
    then record t { rest = t.content }
    else record t { fail_bit = true }
