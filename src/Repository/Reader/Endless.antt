-- ===== src/Repository/Reader/Endless.antt =====
-- `readNextRequest` of src/lib/query_repository.cc, rewinding, over an input whose lines are all refused.
use queryperfpp.Base.{
  ℕ, zero, suc, ◌+◌, ◌<◌, ◌≡◌, refl, sym, ap, ◌∙◌, inl, inr, true, Option, none, some, List, [],
  ◌∷◌, Text, arith, diverged, Result, err,
}
use queryperfpp.Stream.{Stream}
use queryperfpp.Repository.Dns.{Dns, Request}
use queryperfpp.Repository.Line.{parse_line}
use queryperfpp.Repository.Requests.{lines, blanks, filled, parsed_lines, requests, cons_request}
use queryperfpp.Repository.Reader.{next_line, read_loop, read_next_request, max_empty_loop}
use queryperfpp.Repository.Reader.Rewind.{
  over, IsPart, IsPart-whole, After, Found, next_line-Found, next_line-FoundAgain,
}
use queryperfpp.Repository.Reader.Round.{read_loop-none}

module _ (dns : Dns) (qclass : ℕ) (text l : Text) (ls : List Text)
    (line : filled (lines text) ≡ l ∷ ls) (refused : requests dns qclass text ≡ [])
    (few : blanks (lines text) + 1 + blanks (lines text) < 1000) where
  -- No line ahead gives a request.
  first_refused :
      (k : Text) (ks : List Text)
      → parsed_lines dns qclass (k ∷ ks) ≡ []
      → (parse_line dns qclass k ≡ none) × (parsed_lines dns qclass ks ≡ [])
  first_refused k ks e = go (parse_line dns qclass k) refl e
    where
      go :
          (o : Option Request)
          → parse_line dns qclass k ≡ o
          → cons_request o (parsed_lines dns qclass ks) ≡ []
          → (parse_line dns qclass k ≡ none) × (parsed_lines dns qclass ks ≡ [])
      go none skipped e' = (skipped, e')
      go (some q) found e' = cc

  still_refused :
      (ks : List Text) (r : Text)
      → parsed_lines dns qclass ks ≡ []
      → After text ks r
      → requests dns qclass r ≡ []
  still_refused ks r e (inl same) = ap (parsed_lines dns qclass) same ∙ e
  still_refused ks r e (inr (last, whole)) = ap (requests dns qclass) whole ∙ refused

  read_loop-endless :
      (fuel : ℕ) (r : Text)
      → IsPart text r
      → requests dns qclass r ≡ []
      → (read_loop dns qclass fuel true (over text r)).0 ≡ err diverged
  unfolding read_loop
  read_loop-endless zero r p e = refl
  read_loop-endless (suc fuel) r p e =
      go (filled (lines r)) refl λ r' p' e'. read_loop-endless fuel r' p' e'
    where
      skip :
          (k : Text) (ks : List Text)
          → Found text k ks (next_line max_empty_loop true (over text r))
          → parsed_lines dns qclass (k ∷ ks) ≡ []
          → ((r' : Text)
              → IsPart text r'
              → requests dns qclass r' ≡ []
              → (read_loop dns qclass fuel true (over text r')).0 ≡ err diverged)
          → (read_loop dns qclass (suc fuel) true (over text r)).0 ≡ err diverged
      skip k ks f none_of again =
          let (skipped, others) = first_refused k ks none_of in
          ap (λ (x : Result (Option Request) × Stream). x.0)
            (read_loop-none dns qclass fuel (over text r) (over text f.rest) k f.read skipped)
          ∙ again f.rest f.part (still_refused ks f.rest others f.after)

      go :
          (ks : List Text)
          → filled (lines r) ≡ ks
          → ((r' : Text)
              → IsPart text r'
              → requests dns qclass r' ≡ []
              → (read_loop dns qclass fuel true (over text r')).0 ≡ err diverged)
          → (read_loop dns qclass (suc fuel) true (over text r)).0 ≡ err diverged
      go [] same again =
          skip l ls (next_line-FoundAgain 1000 text r l ls p same line (omega (arith, p.few)))
            (sym (ap (parsed_lines dns qclass) line) ∙ refused) again
      go (k ∷ ks) same again =
          skip k ks (next_line-Found 1000 text r k ks p same (omega (arith, p.few)))
            (sym (ap (parsed_lines dns qclass) same) ∙ e) again
      -- A read that rewinds never ends over an input that has a line and whose lines are all refused, if

  -- twice its empty and comment lines and one are below 1000: no number of rounds is enough.
  pub read_next_request-endless :
      (fuel : ℕ) → (read_next_request dns qclass fuel true (over text text)).0 ≡ err diverged
  unfolding read_next_request
  read_next_request-endless fuel = read_loop-endless fuel text (IsPart-whole text) refused
