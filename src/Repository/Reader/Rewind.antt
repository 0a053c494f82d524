-- ===== src/Repository/Reader/Rewind.antt =====
-- The inner loop of `readNextRequest` in src/lib/query_repository.cc, rewinding: at the end of the input
-- it goes on at the beginning.
use queryperfpp.Base.{
  ℕ, zero, suc, ◌+◌, ◌≤◌, ◌<◌, ◌≡◌, refl, sym, ap, subst, ◌∙◌, ◌⊎◌, inl, inr, Bool, true, false,
  Bool-cases, List, [], ◌∷◌, is_nil, if◌then◌else◌, if_both, Text, length, arith,
}
use queryperfpp.Stream.{Stream, line_of, after_line, has_newline, getline, clear, seek_start}
use queryperfpp.Stream.Lines.{after_line-nil}
use queryperfpp.Repository.Requests.{lines, lines-nil, is_blank, blanks, filled}
use queryperfpp.Repository.Reader.{
  LineRead, line, strip_comment, check_stream, line_or, leave_or, next_line,
}
use queryperfpp.Repository.Reader.Takes.{
  strip-blank, strip-filled, line_or-filled, blank-step, filled-step,
}

-- A stream over an input that can seek, with `r` ahead, as the loop leaves it.
abbrev pub over : Text → Text → Stream
over text r = record {
  content = text;
  rest = r;
  eof_bit = false;
  fail_bit = false;
  bad_bit = false;
  seekable = true;
}

-- Behind a line comes the next, and behind a line that the end of the input ends, the first.
abbrev next_rest : Text → Text → Text
next_rest text r = if has_newline r then after_line r else text

-- One round takes a line.
next_line-at_end :
    (rounds : ℕ) (text : Text)
    → next_line (suc rounds) true (over text []) ≡ next_line rounds true (over text text)
unfolding next_line leave_or line_or strip_comment check_stream getline clear seek_start line_of
    has_newline
next_line-at_end rounds text = refl

next_line-round :
    (rounds : ℕ) (text r : Text)
    → is_nil r ≡ false
    → next_line (suc rounds) true (over text r)
      ≡ line_or (strip_comment (line_of r)) (over text (next_rest text r)) (next_line rounds true)
unfolding next_line leave_or check_stream getline clear seek_start
next_line-round rounds text r h = elim (Bool-cases (has_newline r)) [
  | inl e ↦ rw (h, e) refl
  | inr e ↦ rw (h, e) refl
]

next_line-skips :
    (rounds : ℕ) (text r : Text)
    → is_nil r ≡ false
    → is_blank (line_of r) ≡ true
    → next_line (suc rounds) true (over text r)
      ≡ next_line rounds true (over text (next_rest text r))
unfolding line_or
next_line-skips rounds text r h b =
    next_line-round rounds text r h
    ∙ ap (λ (l : Text). line_or l (over text (next_rest text r)) (next_line rounds true))
        (strip-blank (line_of r) b)

next_line-stops :
    (rounds : ℕ) (text r : Text)
    → is_nil r ≡ false
    → is_blank (line_of r) ≡ false
    → next_line (suc rounds) true (over text r) ≡ (line (line_of r), over text (next_rest text r))
next_line-stops rounds text r h b =
    next_line-round rounds text r h
    ∙ ap (λ (l : Text). line_or l (over text (next_rest text r)) (next_line rounds true))
        (strip-filled (line_of r) b)
    ∙ line_or-filled (line_of r) (over text (next_rest text r)) (next_line rounds true) b

-- No more lies ahead than in the whole input.
pub record IsPart (text r : Text) : Type 0 where
  pub few : blanks (lines r) ≤ blanks (lines text)
  pub short : length (filled (lines r)) ≤ length (filled (lines text))

pub IsPart-whole : (text : Text) → IsPart text text
IsPart-whole text = record { few = omega arith; short = omega arith }

IsPart-next : (text r : Text) → is_nil r ≡ false → IsPart text r → IsPart text (next_rest text r)
IsPart-next text r h p =
    if_both (IsPart text) (has_newline r) (λ _. behind (is_blank (line_of r)) refl)
      (λ _. IsPart-whole text)
  where
    behind : (b : Bool) → is_blank (line_of r) ≡ b → IsPart text (after_line r)
    behind true b =
        let (same, fewer) = blank-step r h b in
        record {
          few = omega (arith, p.few, fewer);
          short = omega (arith, p.short, ap (λ (ls : List Text). length ls) same);
        }
    behind false b =
        let (more, same) = filled-step r h b in
        record {
          few = omega (arith, p.few, same);
          short = omega (arith, p.short, ap (λ (ls : List Text). length ls) more);
        }

-- What lies behind the line in front of `ls`: these, or the whole input again.
abbrev pub After : Text → List Text → Text → Type 0
After text ls r = (filled (lines r) ≡ ls) ⊎ ((ls ≡ []) × (r ≡ text))

pub record Found (text l : Text) (ls : List Text) (x : LineRead × Stream) : Type 0 where
  pub rest : Text
  pub read : x ≡ (line l, over text rest)
  pub after : After text ls rest
  pub part : IsPart text rest

-- The lines ahead when the first is the last.
last_line : (text r : Text) → has_newline r ≡ false → filled (lines (after_line r)) ≡ []
last_line text r e =
    ap (λ (t : Text). filled (lines t)) (after_line-nil r e) ∙ ap filled (lines-nil [] refl)

nothing_filled : filled (lines []) ≡ []
nothing_filled = ap filled (lines-nil [] refl)

module _ (text r : Text) (h : is_nil r ≡ false) where
  next_rest-newline : has_newline r ≡ true → next_rest text r ≡ after_line r
  next_rest-newline e = rw e refl

  next_rest-last : has_newline r ≡ false → next_rest text r ≡ text
  next_rest-last e = rw e refl

  -- The first line ahead is not blank: it is the line that is read.
  filled-Found :
      (rounds : ℕ) (l : Text) (ls : List Text)
      → IsPart text r
      → filled (lines r) ≡ l ∷ ls
      → is_blank (line_of r) ≡ false
      → Found text l ls (next_line (suc rounds) true (over text r))
  filled-Found rounds l ls p e b =
      let split : line_of r ∷ filled (lines (after_line r)) ≡ l ∷ ls =
        sym (filled-step r h b).0 ∙ e in
      record {
        rest = next_rest text r;
        read =
            next_line-stops rounds text r h b
            ∙ ap (λ (t : Text). (line t, over text (next_rest text r))) (cc);
        after =
            if_both (After text ls) (has_newline r) (λ _. inl (cc))
              (λ last. inr (cc (last_line text r last), refl));
        part = IsPart-next text r h p;
      }

  -- It is blank: the loop goes on behind it.
  skipped-Found :
      (rounds : ℕ) (l t : Text) (ls : List Text)
      → is_blank (line_of r) ≡ true
      → next_rest text r ≡ t
      → Found text l ls (next_line rounds true (over text t))
      → Found text l ls (next_line (suc rounds) true (over text r))
  skipped-Found rounds l t ls b e f =
      subst (Found text l ls)
        (sym (
          next_line-skips rounds text r h b
          ∙ ap (λ (u : Text). next_line rounds true (over text u)) e))
        f

  behind-IsPart : IsPart text r → has_newline r ≡ true → IsPart text (after_line r)
  behind-IsPart p e = subst (IsPart text) (next_rest-newline e) (IsPart-next text r h p)

-- With a line ahead, it is read behind the empty lines and comments before it.
pub next_line-Found :
    (rounds : ℕ) (text r l : Text) (ls : List Text)
    → IsPart text r
    → filled (lines r) ≡ l ∷ ls
    → blanks (lines r) < rounds
    → Found text l ls (next_line rounds true (over text r))
next_line-Found zero text r l ls p e k = absurd (omega arith)
next_line-Found (suc rounds) text [] l ls p e k = absurd (cc (nothing_filled))
next_line-Found (suc rounds) text (c ∷ t) l ls p e k =
    go (is_blank (line_of (c ∷ t))) (has_newline (c ∷ t)) refl refl
      λ p' e' k'. next_line-Found rounds text (after_line (c ∷ t)) l ls p' e' k'
  where
    go :
        (b n : Bool)
        → is_blank (line_of (c ∷ t)) ≡ b
        → has_newline (c ∷ t) ≡ n
        → (IsPart text (after_line (c ∷ t))
            → filled (lines (after_line (c ∷ t))) ≡ l ∷ ls
            → blanks (lines (after_line (c ∷ t))) < rounds
            → Found text l ls (next_line rounds true (over text (after_line (c ∷ t)))))
        → Found text l ls (next_line (suc rounds) true (over text (c ∷ t)))
    go false n eb en again = filled-Found text (c ∷ t) refl rounds l ls p e eb
    go true true eb en again =
        let (same, fewer) = blank-step (c ∷ t) refl eb in
        skipped-Found text (c ∷ t) refl rounds l (after_line (c ∷ t)) ls eb
          (next_rest-newline text (c ∷ t) refl en)
          (again (behind-IsPart text (c ∷ t) refl p en) (sym same ∙ e) (omega (arith, fewer)))
    go true false eb en again =
        absurd (cc ((blank-step (c ∷ t) refl eb).0, e, last_line text (c ∷ t) en))

-- With none, the first line of the input is read.
pub next_line-FoundAgain :
    (rounds : ℕ) (text r l : Text) (ls : List Text)
    → IsPart text r
    → filled (lines r) ≡ []
    → filled (lines text) ≡ l ∷ ls
    → blanks (lines r) + 1 + blanks (lines text) < rounds
    → Found text l ls (next_line rounds true (over text r))
next_line-FoundAgain zero text r l ls p none e k = absurd (omega arith)
next_line-FoundAgain (suc rounds) text [] l ls p none e k =
    subst (Found text l ls) (sym (next_line-at_end rounds text))
      (next_line-Found rounds text text l ls (IsPart-whole text) e (omega arith))
next_line-FoundAgain (suc rounds) text (c ∷ t) l ls p none e k =
    go (is_blank (line_of (c ∷ t))) (has_newline (c ∷ t)) refl refl
      λ p' none' k'. next_line-FoundAgain rounds text (after_line (c ∷ t)) l ls p' none' e k'
  where
    go :
        (b n : Bool)
        → is_blank (line_of (c ∷ t)) ≡ b
        → has_newline (c ∷ t) ≡ n
        → (IsPart text (after_line (c ∷ t))
            → filled (lines (after_line (c ∷ t))) ≡ []
            → blanks (lines (after_line (c ∷ t))) + 1 + blanks (lines text) < rounds
            → Found text l ls (next_line rounds true (over text (after_line (c ∷ t)))))
        → Found text l ls (next_line (suc rounds) true (over text (c ∷ t)))
    go false n eb en again = absurd (cc ((filled-step (c ∷ t) refl eb).0, none))
    go true true eb en again =
        let (same, fewer) = blank-step (c ∷ t) refl eb in
        skipped-Found text (c ∷ t) refl rounds l (after_line (c ∷ t)) ls eb
          (next_rest-newline text (c ∷ t) refl en)
          (again (behind-IsPart text (c ∷ t) refl p en) (sym same ∙ none) (omega (arith, fewer)))
    go true false eb en again =
        skipped-Found text (c ∷ t) refl rounds l text ls eb (next_rest-last text (c ∷ t) refl en) (
          next_line-Found rounds text text l ls (IsPart-whole text) e
            (omega (arith, (blank-step (c ∷ t) refl eb).1)))
