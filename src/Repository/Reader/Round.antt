-- ===== src/Repository/Reader/Round.antt =====
-- `readNextRequest` of src/lib/query_repository.cc, rewinding: it returns the requests of the input in
-- order, and again from the first.
use queryperfpp.Base.{
  ℕ, zero, suc, ◌+◌, ◌<◌, ◌≡◌, refl, sym, ap, subst, ◌∙◌, ◌⊎◌, inl, inr, true, Option, none, some,
  List, [], ◌∷◌, Text, length, arith, Result, ok,
}
use queryperfpp.Stream.{Stream}
use queryperfpp.Repository.Dns.{Dns, Request}
use queryperfpp.Repository.Line.{parse_line}
use queryperfpp.Repository.Requests.{lines, blanks, filled, parsed_lines, requests, cons_request}
use queryperfpp.Repository.Reader.{
  LineRead, line, next_line, parse_read, request_or, read_loop, max_empty_loop,
}
use queryperfpp.Repository.Reader.Rewind.{
  over, IsPart, After, Found, next_line-Found, next_line-FoundAgain,
}

module _ (dns : Dns) (qclass : ℕ) where
  -- The request in front of `t` was read, and what lies ahead is `t`, or the whole input again.
  pub record Served (text : Text) (q : Request) (t : List Request)
      (x : Result (Option Request) × Stream) : Type 0 where
    pub rest : Text
    pub read : x ≡ (ok (some q), over text rest)
    pub after : (requests dns qclass rest ≡ t) ⊎ ((t ≡ []) × (rest ≡ text))
    pub part : IsPart text rest

  read_loop-line :
      (fuel : ℕ) (s s' : Stream) (l : Text)
      → next_line max_empty_loop true s ≡ (line l, s')
      → read_loop dns qclass (suc fuel) true s
        ≡ request_or (parse_line dns qclass l) s' (read_loop dns qclass fuel true)
  unfolding read_loop parse_read
  read_loop-line fuel s s' l e =
      ap (λ (x : LineRead × Stream). parse_read dns qclass x.0 x.1 (read_loop dns qclass fuel true))
        e

  read_loop-some :
      (fuel : ℕ) (s s' : Stream) (l : Text) (q : Request)
      → next_line max_empty_loop true s ≡ (line l, s')
      → parse_line dns qclass l ≡ some q
      → read_loop dns qclass (suc fuel) true s ≡ (ok (some q), s')
  unfolding request_or
  read_loop-some fuel s s' l q e found =
      read_loop-line fuel s s' l e
      ∙ ap (λ (o : Option Request). request_or o s' (read_loop dns qclass fuel true)) found

  pub read_loop-none :
      (fuel : ℕ) (s s' : Stream) (l : Text)
      → next_line max_empty_loop true s ≡ (line l, s')
      → parse_line dns qclass l ≡ none
      → read_loop dns qclass (suc fuel) true s ≡ read_loop dns qclass fuel true s'
  unfolding request_or
  read_loop-none fuel s s' l e skipped =
      read_loop-line fuel s s' l e
      ∙ ap (λ (o : Option Request). request_or o s' (read_loop dns qclass fuel true)) skipped

  module _ (text : Text) (q : Request) (t : List Request) where
    after_request :
        (ls : List Text) (r : Text)
        → parsed_lines dns qclass ls ≡ t
        → After text ls r
        → (requests dns qclass r ≡ t) ⊎ ((t ≡ []) × (r ≡ text))
    after_request ls r e (inl same) = inl (ap (parsed_lines dns qclass) same ∙ e)
    after_request ls r e (inr (last, whole)) =
        inr (sym e ∙ ap (parsed_lines dns qclass) last, whole)

    -- What holds of the text behind a line holds of what the loop goes on with.
    skipped-Served :
        (fuel : ℕ) (r l : Text) (ls : List Text)
        (f : Found text l ls (next_line max_empty_loop true (over text r)))
        → parse_line dns qclass l ≡ none
        → Served text q t (read_loop dns qclass fuel true (over text f.rest))
        → Served text q t (read_loop dns qclass (suc fuel) true (over text r))
    skipped-Served fuel r l ls f skipped =
        subst (Served text q t)
          (sym (read_loop-none fuel (over text r) (over text f.rest) l f.read skipped))

    -- A line in front of lines with the request `q`.
    line-Served :
        (fuel : ℕ) (r l : Text) (ls : List Text)
        → Found text l ls (next_line max_empty_loop true (over text r))
        → cons_request (parse_line dns qclass l) (parsed_lines dns qclass ls) ≡ q ∷ t
        → length ls < fuel
        → ((r' : Text)
            → IsPart text r'
            → requests dns qclass r' ≡ q ∷ t
            → length (filled (lines r')) < fuel
            → Served text q t (read_loop dns qclass fuel true (over text r')))
        → Served text q t (read_loop dns qclass (suc fuel) true (over text r))
    line-Served fuel r l ls f e k again = go (parse_line dns qclass l) refl
      where
        skipped : parse_line dns qclass l ≡ none → parsed_lines dns qclass ls ≡ q ∷ t
        skipped none_found =
            sym
              (ap (λ (o : Option Request). cons_request o (parsed_lines dns qclass ls)) none_found)
            ∙ e

        go_on :
            parsed_lines dns qclass ls ≡ q ∷ t
            → After text ls f.rest
            → Served text q t (read_loop dns qclass fuel true (over text f.rest))
        go_on e' (inl same) =
            again f.rest f.part (ap (parsed_lines dns qclass) same ∙ e')
              (omega (arith, ap (λ (xs : List Text). length xs) same))
        go_on e' (inr (last, whole)) = absurd (cc (ap (parsed_lines dns qclass) last))

        go :
            (o : Option Request)
            → parse_line dns qclass l ≡ o
            → Served text q t (read_loop dns qclass (suc fuel) true (over text r))
        go none none_found =
            skipped-Served fuel r l ls f none_found (go_on (skipped none_found) f.after)
        go (some q') found =
            let e' : q' ∷ parsed_lines dns qclass ls ≡ q ∷ t =
              sym (ap (λ (o : Option Request). cons_request o (parsed_lines dns qclass ls)) found)
              ∙ e in
            record {
              rest = f.rest;
              read = read_loop-some fuel (over text r) (over text f.rest) l q f.read (cc);
              after = after_request ls f.rest (cc) f.after;
              part = f.part;
            }

    module _ (few : blanks (lines text) + 1 + blanks (lines text) < 1000) where
      -- With a request ahead, it is read.
      pub read_loop-Served :
          (fuel : ℕ) (r : Text)
          → IsPart text r
          → requests dns qclass r ≡ q ∷ t
          → length (filled (lines r)) < fuel
          → Served text q t (read_loop dns qclass fuel true (over text r))
      read_loop-Served zero r p e k = absurd (omega arith)
      read_loop-Served (suc fuel) r p e k =
          go (filled (lines r)) refl λ r' p' e' k'. read_loop-Served fuel r' p' e' k'
        where
          go :
              (ls : List Text)
              → filled (lines r) ≡ ls
              → ((r' : Text)
                  → IsPart text r'
                  → requests dns qclass r' ≡ q ∷ t
                  → length (filled (lines r')) < fuel
                  → Served text q t (read_loop dns qclass fuel true (over text r')))
              → Served text q t (read_loop dns qclass (suc fuel) true (over text r))
          go [] same again = absurd (cc (ap (parsed_lines dns qclass) same))
          go (l ∷ ls) same again =
              line-Served fuel r l ls
                (next_line-Found 1000 text r l ls p same (omega (arith, p.few)))
                (sym (ap (parsed_lines dns qclass) same) ∙ e)
                (omega (arith, ap (λ (xs : List Text). length xs) same)) again

      -- With none, the first of the input is read.
      pub read_loop-ServedAgain :
          (fuel : ℕ) (r : Text)
          → IsPart text r
          → requests dns qclass r ≡ []
          → requests dns qclass text ≡ q ∷ t
          → length (filled (lines r)) + length (filled (lines text)) < fuel
          → Served text q t (read_loop dns qclass fuel true (over text r))
      read_loop-ServedAgain zero r p e first k = absurd (omega arith)
      read_loop-ServedAgain (suc fuel) r p e first k =
          go (filled (lines r)) refl λ r' p' e' k'. read_loop-ServedAgain fuel r' p' e' first k'
        where
          from_start :
              filled (lines r) ≡ []
              → (ls : List Text) → filled (lines text) ≡ ls
              → Served text q t (read_loop dns qclass (suc fuel) true (over text r))
          from_start at_end [] same = absurd (cc (ap (parsed_lines dns qclass) same))
          from_start at_end (l ∷ ls) same =
              line-Served fuel r l ls
                (next_line-FoundAgain 1000 text r l ls p at_end same (omega (arith, p.few)))
                (sym (ap (parsed_lines dns qclass) same) ∙ first)
                (omega (arith, ap (λ (xs : List Text). length xs) same))
                λ r' p' e' k'. read_loop-Served fuel r' p' e' k'

          behind_line :
              (l : Text) (ls : List Text) (r' : Text)
              → filled (lines r) ≡ l ∷ ls
              → parsed_lines dns qclass ls ≡ []
              → IsPart text r'
              → After text ls r'
              → ((r' : Text)
                  → IsPart text r'
                  → requests dns qclass r' ≡ []
                  → length (filled (lines r')) + length (filled (lines text)) < fuel
                  → Served text q t (read_loop dns qclass fuel true (over text r')))
              → Served text q t (read_loop dns qclass fuel true (over text r'))
          behind_line l ls r' same e' p' (inl ahead) again =
              again r' p' (ap (parsed_lines dns qclass) ahead ∙ e') (
                omega (
                  arith,
                  ap (λ (xs : List Text). length xs) same,
                  ap (λ (xs : List Text). length xs) ahead,
                ))
          behind_line l ls r' same e' p' (inr (last, whole)) again =
              read_loop-Served fuel r' p' (ap (requests dns qclass) whole ∙ first) (
                omega (
                  arith,
                  ap (λ (xs : List Text). length xs) same,
                  ap (λ (x : Text). length (filled (lines x))) whole,
                ))

          skip :
              (l : Text) (ls : List Text) (o : Option Request)
              → filled (lines r) ≡ l ∷ ls
              → parse_line dns qclass l ≡ o
              → cons_request o (parsed_lines dns qclass ls) ≡ []
              → ((r' : Text)
                  → IsPart text r'
                  → requests dns qclass r' ≡ []
                  → length (filled (lines r')) + length (filled (lines text)) < fuel
                  → Served text q t (read_loop dns qclass fuel true (over text r')))
              → Served text q t (read_loop dns qclass (suc fuel) true (over text r))
          skip l ls (some q') same found e' again = cc
          skip l ls none same skipped e' again =
              let f = next_line-Found 1000 text r l ls p same (omega (arith, p.few)) in
              skipped-Served fuel r l ls f skipped
                (behind_line l ls f.rest same e' f.part f.after again)

          go :
              (ls : List Text)
              → filled (lines r) ≡ ls
              → ((r' : Text)
                  → IsPart text r'
                  → requests dns qclass r' ≡ []
                  → length (filled (lines r')) + length (filled (lines text)) < fuel
                  → Served text q t (read_loop dns qclass fuel true (over text r')))
              → Served text q t (read_loop dns qclass (suc fuel) true (over text r))
          go [] same again = from_start same (filled (lines text)) refl
          go (l ∷ ls) same again =
              skip l ls (parse_line dns qclass l) same refl
                (sym (ap (parsed_lines dns qclass) same) ∙ e) again
