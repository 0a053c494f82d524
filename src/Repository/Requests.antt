-- ===== src/Repository/Requests.antt =====
-- What query data says, independently of how src/lib/query_repository.cc reads it: the text's lines,
-- without the empty ones and the comments, each read by itself.
use queryperfpp.Base.{
  ℕ, suc, ◌≡◌, refl, Bool, true, false, Option, none, some, List, [], ◌∷◌, ◌==◌, if◌then◌else◌,
  is_nil, Text, arith,
}
use queryperfpp.Stream.{line_of, after_line}
use queryperfpp.Repository.Dns.{Dns, Request}
use queryperfpp.Repository.Line.{parse_line}

-- A character goes to the front of the first line.
abbrev pub cons_line : ℕ → List Text → List Text
cons_line c [] = (c ∷ []) ∷ []
cons_line c (l ∷ ls) = (c ∷ l) ∷ ls

-- The lines of a text, each ended by a newline or by the end of the text.
unfoldable pub lines : Text → List Text
lines [] = []
lines (c ∷ s) = if c == 10 then [] ∷ lines s else cons_line c (lines s)

pub lines-nil : (s : Text) → s ≡ [] → lines s ≡ []
unfolding lines
lines-nil s e = rw e

-- The reader takes one line after the other.
pub lines-step : (s : Text) → is_nil s ≡ false → lines s ≡ line_of s ∷ lines (after_line s)
unfolding lines line_of after_line
lines-step [] h = cc
lines-step (c ∷ []) h = ground arith
lines-step (c ∷ d ∷ s) h = ground (arith, lines-step (d ∷ s) refl)

-- An empty line, or a comment.
abbrev pub is_blank : Text → Bool
is_blank [] = true
is_blank (c ∷ s) = c == b';'

-- The number of blank lines; the source gives up behind 1000 in a row.
abbrev pub blanks : List Text → ℕ
blanks [] = 0
blanks (l ∷ ls) = if is_blank l then suc (blanks ls) else blanks ls

-- The lines that are not blank.
abbrev pub filled : List Text → List Text
filled [] = []
filled (l ∷ ls) = if is_blank l then filled ls else l ∷ filled ls

-- The requests of some lines: those that parse.
abbrev pub cons_request : Option Request → List Request → List Request
cons_request none rs = rs
cons_request (some r) rs = r ∷ rs

module _ (dns : Dns) (qclass : ℕ) where
  abbrev pub parsed_lines : List Text → List Request
  parsed_lines [] = []
  parsed_lines (l ∷ ls) = cons_request (parse_line dns qclass l) (parsed_lines ls)

  -- The requests of a text, in order.
  abbrev pub requests : Text → List Request
  requests s = parsed_lines (filled (lines s))
