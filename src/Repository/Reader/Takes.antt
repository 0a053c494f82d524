-- ===== src/Repository/Reader/Takes.antt =====
-- The inner loop of `readNextRequest` in src/lib/query_repository.cc, without rewinding: it takes the
-- next line that is neither empty nor a comment.
use queryperfpp.Base.{
  inl, inr, zero, Bool, ◌≤◌, ℕ, suc, ◌<◌, ◌≡◌, refl, true, false, not, List, [], ◌∷◌, is_nil, Text,
  length, arith, Bool-cases, inl, inr,
}
use queryperfpp.Stream.{Stream, line_of, after_line, has_newline, getline}
use queryperfpp.Stream.Lines.{after_line-lt, after_line-nil}
use queryperfpp.Repository.Reader.{
  failed, leave_or, line_or, leave, go_on, LineRead, line, ended, strip_comment, check_stream,
  next_line,
}
use queryperfpp.Repository.Requests.{lines-nil, lines-step, lines, is_blank, blanks, filled}

-- A stream between two reads: no failure, and at the end nothing is left.
pub record IsOpen (s : Stream) : Type 0 where
  pub sound : s.bad_bit ≡ false
  pub whole : s.eof_bit ≡ false → s.fail_bit ≡ false
  pub done : s.eof_bit ≡ true → s.rest ≡ []

-- What `next_line` returns for lines that lie ahead.
abbrev pub Takes : List Text → ℕ → LineRead × Stream → Type 0
Takes [] n (ended, s) = Unit
Takes [] n _ = ⊥
Takes (l ∷ ls) n (line t, s) =
    (t ≡ l)
    × IsOpen s
    × (filled (lines s.rest) ≡ ls)
    × (length s.rest < n)
    × (blanks (lines s.rest) < 1000)
Takes (l ∷ ls) n _ = ⊥

-- The stream behind one line.
abbrev advanced : Stream → Stream
advanced s = record s {
  rest = after_line s.rest;
  eof_bit = not (has_newline s.rest);
  fail_bit = false;
}

advanced-IsOpen : (s : Stream) → IsOpen s → IsOpen (advanced s)
advanced-IsOpen s o = record {
  sound = o.sound;
  whole = λ _. refl;
  done = λ e. after_line-nil s.rest (ground arith);
}

unended_line : (s : Text) → is_nil s ≡ false → has_newline s ≡ false → is_nil (line_of s) ≡ false
unfolding line_of has_newline
unended_line [] h e = cc
unended_line (c ∷ s) h e = ground arith

getline-advanced :
    (s : Stream)
    → IsOpen s
    → s.eof_bit ≡ false
    → is_nil s.rest ≡ false
    → getline s [] ≡ (line_of s.rest, advanced s)
unfolding getline
getline-advanced s o e h = ground arith

getline-ended : (s : Stream) → IsOpen s → s.rest ≡ [] → (getline s []).0 ≡ []
unfolding getline line_of
getline-ended s o h = ground arith

getline-eof : (s : Stream) → IsOpen s → s.rest ≡ [] → (getline s []).1.eof_bit ≡ true
unfolding getline has_newline
getline-eof s o h = elim (Bool-cases s.eof_bit) [
  | inl e ↦ ground arith
  | inr e ↦ ground (arith, o.whole e)
]

-- Without rewinding, a line that was read is gone on with.
check-advanced :
    (s : Stream)
    → IsOpen s
    → is_nil s.rest ≡ false
    → check_stream false (line_of s.rest) (advanced s) ≡ go_on (advanced s)
unfolding check_stream
check-advanced s o h = ground (arith, unended_line s.rest h)

check-ended : (s : Stream) → s.eof_bit ≡ true → check_stream false [] s ≡ leave ended
unfolding check_stream
check-ended s e = ground arith

pub strip-blank : (t : Text) → is_blank t ≡ true → strip_comment t ≡ []
unfolding strip_comment
strip-blank [] h = refl
strip-blank (c ∷ t) h = ground arith

pub strip-filled : (t : Text) → is_blank t ≡ false → strip_comment t ≡ t
unfolding strip_comment
strip-filled [] h = cc
strip-filled (c ∷ t) h = ground arith

pub line_or-filled :
    (t : Text) (s : Stream) (again : Stream → LineRead × Stream)
    → is_blank t ≡ false
    → line_or t s again ≡ (line t, s)
unfolding line_or
line_or-filled [] s again h = cc
line_or-filled (c ∷ t) s again h = refl

-- One round at the end of the text, at a blank line, and at any other line.
module _ (rounds : ℕ) (s : Stream) (o : IsOpen s) where
  next_line-ended : s.rest ≡ [] → (next_line (suc rounds) false s).0 ≡ ended
  unfolding next_line leave_or line_or
  next_line-ended h = rw (getline-ended s o h, check-ended (getline s []).1 (getline-eof s o h))

  module _ (e : s.eof_bit ≡ false) (h : is_nil s.rest ≡ false) where
    next_line-blank :
        is_blank (line_of s.rest) ≡ true
        → next_line (suc rounds) false s ≡ next_line rounds false (advanced s)
    unfolding next_line leave_or line_or
    next_line-blank b =
        rw (getline-advanced s o e h, check-advanced s o h, strip-blank (line_of s.rest) b)

    next_line-filled :
        is_blank (line_of s.rest) ≡ false
        → next_line (suc rounds) false s ≡ (line (line_of s.rest), advanced s)
    unfolding next_line leave_or line_or
    next_line-filled b =
        rw (getline-advanced s o e h, check-advanced s o h, strip-filled (line_of s.rest) b)
          (line_or-filled (line_of s.rest) (advanced s) (next_line rounds false) b)

-- The lines ahead of a text that is not empty, by its first line.
pub blank-step :
    (s : Text)
    → is_nil s ≡ false
    → is_blank (line_of s) ≡ true
    → (filled (lines s) ≡ filled (lines (after_line s)))
      × (blanks (lines s) ≡ suc (blanks (lines (after_line s))))
blank-step s h b = rw (lines-step s h, b) (refl, refl)

pub filled-step :
    (s : Text)
    → is_nil s ≡ false
    → is_blank (line_of s) ≡ false
    → (filled (lines s) ≡ line_of s ∷ filled (lines (after_line s)))
      × (blanks (lines s) ≡ blanks (lines (after_line s)))
filled-step s h b = rw (lines-step s h, b) (refl, refl)

Takes-mono :
    (ls : List Text) (m n : ℕ) (r : LineRead × Stream) → m ≤ n → Takes ls m r → Takes ls n r
Takes-mono [] m n (ended, s) h t = t
Takes-mono [] m n (line _, s) h t = t
Takes-mono [] m n (failed _, s) h t = t
Takes-mono (l ∷ ls) m n (ended, s) h t = t
Takes-mono (l ∷ ls) m n (line _, s) h t = (t.0, t.1, t.2, omega arith, t.4)
Takes-mono (l ∷ ls) m n (failed _, s) h t = t

Takes-ended :
    (ls : List Text) (n : ℕ) (r : LineRead × Stream) → ls ≡ [] → r.0 ≡ ended → Takes ls n r
Takes-ended ls n r e f = rw (e, f) tt

-- With more rounds than empty lines and comments ahead, the inner loop reads the next line.
pub next_line-Takes :
    (rounds : ℕ) (s : Stream)
    → IsOpen s
    → blanks (lines s.rest) < rounds
    → blanks (lines s.rest) < 1000
    → Takes (filled (lines s.rest)) (length s.rest) (next_line rounds false s)
next_line-Takes zero s o h k = elim h [ ]
next_line-Takes (suc rounds) s o h k =
    go (is_nil s.rest) (is_blank (line_of s.rest)) refl refl
      (next_line-Takes rounds (advanced s) (advanced-IsOpen s o))
  where
    at_end : (t : Text) → is_nil t ≡ true → t ≡ []
    at_end [] e = refl
    at_end (c ∷ t) e = cc

    not_eof : is_nil s.rest ≡ false → s.eof_bit ≡ false
    not_eof e = ground (arith, o.done)

    go :
        (n b : Bool)
        → is_nil s.rest ≡ n
        → is_blank (line_of s.rest) ≡ b
        → (blanks (lines (after_line s.rest)) < rounds
            → blanks (lines (after_line s.rest)) < 1000
            → Takes
                (filled (lines (after_line s.rest)))
                (length (after_line s.rest))
                (next_line rounds false (advanced s)))
        → Takes (filled (lines s.rest)) (length s.rest) (next_line (suc rounds) false s)
    go true b e f again =
        Takes-ended (filled (lines s.rest)) (length s.rest) (next_line (suc rounds) false s)
          (rw (lines-nil s.rest (at_end s.rest e))) (next_line-ended rounds s o (at_end s.rest e))
    go false true e f again =
        rw (next_line-blank rounds s o (not_eof e) e f, (blank-step s.rest e f).0)
          (Takes-mono (filled (lines (after_line s.rest))) (length (after_line s.rest))
            (length s.rest) (next_line rounds false (advanced s))
            (omega (arith, after_line-lt s.rest e))
            (again (omega (arith, blank-step s.rest e f)) (omega (arith, blank-step s.rest e f))))
    go false false e f again =
        rw (next_line-filled rounds s o (not_eof e) e f, (filled-step s.rest e f).0)
          (
            refl,
            advanced-IsOpen s o,
            refl,
            after_line-lt s.rest e,
            omega (arith, filled-step s.rest e f),
          )
