-- ===== src/Repository/Reader/Forward.antt =====
-- Reading without rewinding, as `QueryRepository::load` of src/lib/query_repository.cc does: the
-- loops end, and return the requests of the text in order.
use queryperfpp.Base.{
  if_both, ok, err, none, some, Option, Result, Option-cases, inl, inr, ap, some, ok, Option,
  Result, zero, ◌≤◌, ℕ, suc, ◌<◌, ◌≡◌, refl, false, List, [], ◌∷◌, Text, length, arith, inl, inr,
}
use queryperfpp.Stream.{Stream}
use queryperfpp.Repository.Reader.{
  read_next_request, parse_line, parse_read, request_or, max_empty_loop, parse_read, read_loop,
  Request, Dns, failed, LineRead, line, ended, next_line,
}
use queryperfpp.Repository.Requests.{lines-nil, parsed_lines, requests, lines, blanks, filled}
use queryperfpp.Repository.Reader.Takes.{IsOpen, Takes, next_line-Takes}

-- What `read_loop` returns for the requests that lie ahead.
abbrev pub Reads : Dns → ℕ → List Request → ℕ → Result (Option Request) × Stream → Type 0
Reads dns qclass [] n (ok none, s) = Unit
Reads dns qclass [] n _ = ⊥
Reads dns qclass (r ∷ rs) n (ok (some q), s) =
    (q ≡ r)
    × IsOpen s
    × (requests dns qclass s.rest ≡ rs)
    × (length s.rest < n)
    × (blanks (lines s.rest) < 1000)
Reads dns qclass (r ∷ rs) n _ = ⊥

module _ (dns : Dns) (qclass : ℕ) where
  Reads-mono :
      (rs : List Request) (m n : ℕ) (r : Result (Option Request) × Stream)
      → m ≤ n
      → Reads dns qclass rs m r
      → Reads dns qclass rs n r
  Reads-mono [] m n (ok none, s) h t = t
  Reads-mono [] m n (ok (some q), s) h t = t
  Reads-mono [] m n (err _, s) h t = t
  Reads-mono (r ∷ rs) m n (ok none, s) h t = t
  Reads-mono (r ∷ rs) m n (ok (some q), s) h t = (t.0, t.1, t.2, omega arith, t.4)
  Reads-mono (r ∷ rs) m n (err _, s) h t = t

  -- With more fuel than characters, the loop reads the next request of the text.
  read_loop-Reads :
      (fuel : ℕ) (s : Stream)
      → IsOpen s
      → length s.rest < fuel
      → blanks (lines s.rest) < 1000
      → Reads dns qclass
          (requests dns qclass s.rest)
          (length s.rest)
          (read_loop dns qclass fuel false s)
  unfolding read_loop parse_read request_or
  read_loop-Reads zero s o h k = elim h [ ]
  read_loop-Reads (suc fuel) s o h k =
      go (filled (lines s.rest)) (next_line max_empty_loop false s).0
        (next_line max_empty_loop false s).1 (next_line-Takes 1000 s o k k)
        λ e. read_loop-Reads fuel e
    where
      go :
          (ls : List Text) (r : LineRead) (e : Stream)
          → Takes ls (length s.rest) (r, e)
          → ((f : Stream)
              → IsOpen f
              → length f.rest < fuel
              → blanks (lines f.rest) < 1000
              → Reads dns qclass
                  (requests dns qclass f.rest)
                  (length f.rest)
                  (read_loop dns qclass fuel false f))
          → Reads dns qclass
              (parsed_lines dns qclass ls)
              (length s.rest)
              (parse_read dns qclass r e (read_loop dns qclass fuel false))
      go [] ended e t again = tt
      go [] (line _) e t again = elim t [ ]
      go [] (failed _) e t again = elim t [ ]
      go (l ∷ ls) ended e t again = elim t [ ]
      go (l ∷ ls) (failed _) e t again = elim t [ ]
      go (l ∷ ls) (line text) e t again = elim (Option-cases (parse_line dns qclass l)) [
        | inl skipped ↦
            rw (t.0, skipped)
              (Reads-mono (parsed_lines dns qclass ls) (length e.rest) (length s.rest)
                (read_loop dns qclass fuel false e) (omega arith)
                (rw t.2 at (again e t.1 (omega arith) t.4)))
        | inr (q, found) ↦ rw (t.0, found) (refl, t.1, ap (parsed_lines dns qclass) t.2, t.3, t.4)
      ]

  -- `readNextRequest` without rewinding returns the next request of the text, or null at its end.
  pub read_next_request-Reads :
      (fuel : ℕ) (s : Stream)
      → IsOpen s
      → length s.rest < fuel
      → blanks (lines s.rest) < 1000
      → Reads dns qclass
          (requests dns qclass s.rest)
          (length s.rest)
          (read_next_request dns qclass fuel false s)
  unfolding read_next_request
  read_next_request-Reads fuel s o h k =
      if_both (Reads dns qclass (requests dns qclass s.rest) (length s.rest)) s.eof_bit
        (λ e. rw (lines-nil s.rest (o.done e)) tt) (λ _. read_loop-Reads fuel s o h k)
