-- ===== src/Repository/Streaming.antt =====
-- `getNextParam` of src/lib/query_repository.cc without a preload: it serves the requests of an input
-- that can seek just as a preload of it does.
pub mod Preloaded
use native.Mathlib.Nat.{mod_self, mod-eq_of_lt, mod-lt, mod-add-mod}
use queryperfpp.Base.{
  ℕ, zero, suc, ◌+◌, ◌%◌, ◌≤◌, ◌<◌, ◌≡◌, refl, sym, ap, subst, ◌∙◌, ◌⊎◌, inl, inr, true, false,
  Option, none, some, List, [], ◌∷◌, map, Text, length, get_elem?, arith, Result, ok, err, ◌==◌,
  if_both, is_nil,
}
use queryperfpp.Stream.{Stream}
use queryperfpp.Repository.Dns.{Dns, Request, RequestParam}
use queryperfpp.Repository.Requests.{lines, blanks, filled, requests}
use queryperfpp.Repository.Reader.{read_loop, read_next_request}
use queryperfpp.Repository.Reader.Rewind.{over, IsPart, IsPart-whole}
use queryperfpp.Repository.Reader.Round.{Served, read_loop-Served, read_loop-ServedAgain}
use queryperfpp.Repository.State.{
  Repository, read_request, fill_placeholder, get_next_param, request_param,
}
use queryperfpp.Repository.Cycle.{Returns, after_calls, load-serves}
use queryperfpp.Repository.Preload.{param_of, request_param-param_of}
use queryperfpp.Repository.Cursor.{
  from_index, cycle, cycle_self, Cut, from_index-Cut, cycle-next, elem-map,
}

module _ (dns : Dns) (text : Text) (fuel : ℕ)
    (few : blanks (lines text) + 1 + blanks (lines text) < 1000)
    (enough : length (filled (lines text)) + length (filled (lines text)) < fuel) where
  -- The requests of the whole input, under a class.
  abbrev pub all_of : ℕ → List Request
  all_of qclass = requests dns qclass text

  read-Served :
      (qclass : ℕ) (r : Text) (q : Request) (t : List Request)
      → IsPart text r
      → cycle (all_of qclass) (requests dns qclass r) ≡ q ∷ t
      → Served dns qclass text q t (read_next_request dns qclass fuel true (over text r))
  unfolding read_next_request
  read-Served qclass r q t p e = go (requests dns qclass r) refl
    where
      go :
          (ahead : List Request)
          → requests dns qclass r ≡ ahead
          → Served dns qclass text q t (read_loop dns qclass fuel true (over text r))
      go [] same =
          read_loop-ServedAgain dns qclass text q t few fuel r p same
            (sym (ap (cycle (all_of qclass)) same) ∙ e) (omega (arith, p.short))
      go (q' ∷ t') same =
          read_loop-Served dns qclass text q t few fuel r p
            (same ∙ sym (ap (cycle (all_of qclass)) same) ∙ e) (omega (arith, p.short))

  cycle-after :
      (qclass : ℕ) (t : List Request) (r : Text)
      → (requests dns qclass r ≡ t) ⊎ ((t ≡ []) × (r ≡ text))
      → cycle (all_of qclass) (requests dns qclass r) ≡ cycle (all_of qclass) t
  cycle-after qclass t r (inl e) = ap (cycle (all_of qclass)) e
  cycle-after qclass t r (inr (last, whole)) =
      ap (λ (x : Text). cycle (all_of qclass) (requests dns qclass x)) whole
      ∙ cycle_self (all_of qclass)
      ∙ sym (ap (cycle (all_of qclass)) last)

  -- A call that reads.
  get_next_param-reads :
      (r : Repository) (q : Request) (s : Stream)
      → r.params ≡ []
      → read_next_request dns r.qclass fuel true r.input ≡ (ok (some q), s)
      → get_next_param dns fuel r
        ≡ (ok (param_of dns r q), record r { input = s; placeholder = param_of dns r q })
  unfolding get_next_param read_request
  get_next_param-reads r q s e read =
      let empty : is_nil r.params ≡ true = ap is_nil e in
      rw empty (
        ap
          (λ (x : Result (Option Request) × Stream).
            fill_placeholder dns x.0 (record r { input = x.1 }))
          read
        ∙ filled_in)
    where
      filled_in :
          fill_placeholder dns (ok (some q)) (record r { input = s })
          ≡ (ok (param_of dns r q), record r { input = s; placeholder = param_of dns r q })
      filled_in = ground arith

  module _ (r₀ : Repository) where
    abbrev pub served : List RequestParam
    served = map (param_of dns r₀) (all_of r₀.qclass)

    -- A repository behind calls, with the request number `i` to come.
    pub record Streams (i : ℕ) (r : Repository) : Type 0 where
      pub rest : Text
      pub input : r.input ≡ over text rest
      pub part : IsPart text rest
      pub at :
          cycle (all_of r₀.qclass) (requests dns r₀.qclass rest) ≡ from_index i (all_of r₀.qclass)
      pub empty : r.params ≡ []
      pub qclass : r.qclass ≡ r₀.qclass
      pub proto : r.proto ≡ r₀.proto
      pub dnssec : r.use_dnssec ≡ r₀.use_dnssec
      pub edns : r.use_edns ≡ r₀.use_edns
      pub options : r.edns ≡ r₀.edns

    cong_read :
        (c c' : ℕ) (s s' : Stream)
        → c' ≡ c
        → s' ≡ s
        → read_next_request dns c' fuel true s' ≡ read_next_request dns c fuel true s
    cong_read c c' s s' e f = cc

    same_param :
        (i : ℕ) (r : Repository) (q : Request) → Streams i r → param_of dns r q ≡ param_of dns r₀ q
    same_param i r q st = cc (st.proto, st.dnssec, st.edns)

    -- One call serves the request number `i`, and the next is number `i` plus one, round and round.
    pub get_next_param-Streams :
        (i : ℕ) (r : Repository)
        → i < length (all_of r₀.qclass)
        → Streams i r
        → Returns served i (get_next_param dns fuel r).0
          × Streams ((i + 1) % length (all_of r₀.qclass)) (get_next_param dns fuel r).1
    get_next_param-Streams i r h st =
        let all = all_of r₀.qclass in
        let c = from_index-Cut all i h in
        let s = read-Served r₀.qclass st.rest c.request c.behind st.part (st.at ∙ c.cut) in
        let q = c.request in
        let r' : Repository = record r {
          input = over text s.rest;
          placeholder = param_of dns r q;
        } in
        let step : get_next_param dns fuel r ≡ (ok (param_of dns r q), r') =
          get_next_param-reads r q (over text s.rest) st.empty (
            cong_read r₀.qclass r.qclass (over text st.rest) r.input st.qclass st.input ∙ s.read) in
        subst
          (λ (x : Result RequestParam × Repository).
            Returns served i x.0 × Streams ((i + 1) % length all) x.1)
          (sym step)
          (
            elem-map (param_of dns r₀) all i q c.found ∙ ap some (sym (same_param i r q st)),
            record {
              rest = s.rest;
              input = refl;
              part = s.part;
              at =
                  cycle-after r₀.qclass c.behind s.rest s.after
                  ∙ ap (cycle all) (sym c.next)
                  ∙ cycle-next all i h;
              empty = st.empty;
              qclass = st.qclass;
              proto = st.proto;
              dnssec = st.dnssec;
              edns = st.edns;
              options = st.options;
            },
          )

    after_calls-Streams :
        (n i : ℕ) (r : Repository)
        → i < length (all_of r₀.qclass)
        → Streams i r
        → Streams ((i + n) % length (all_of r₀.qclass)) (after_calls dns fuel n r)
    after_calls-Streams zero i r h st =
        subst (λ (k : ℕ). Streams k r)
          (sym (ap (λ (k : ℕ). k % length (all_of r₀.qclass)) (omega arith) ∙ mod-eq_of_lt h)) st
    after_calls-Streams (suc n) i r h st =
        let size = length (all_of r₀.qclass) in
        subst (λ (k : ℕ). Streams k (after_calls dns fuel n (get_next_param dns fuel r).1))
          (mod-add-mod (i + 1) size n ∙ ap (λ (k : ℕ). k % size) (omega arith))
          (after_calls-Streams n ((i + 1) % size) (get_next_param dns fuel r).1
            (mod-lt (i + 1) (omega arith)) (get_next_param-Streams i r h st).1)

  pub Streams-first : (r : Repository) → r.params ≡ [] → r.input ≡ over text text → Streams r 0 r
  Streams-first r e input = record {
    rest = text;
    input = input;
    part = IsPart-whole text;
    at = cycle_self (requests dns r.qclass text);
    empty = e;
    qclass = refl;
    proto = refl;
    dnssec = refl;
    edns = refl;
    options = refl;
  }

  -- Without a preload, an input that can seek and has a request is served in order and again from the
  -- first: the call number `n` returns the parameters of the request number `n`, counted modulo the
  -- number of requests.
  pub streaming-serves :
      (n : ℕ) (r : Repository)
      → r.params ≡ []
      → r.input ≡ over text text
      → 0 < length (requests dns r.qclass text)
      → Returns
          (map (param_of dns r) (requests dns r.qclass text))
          (n % length (requests dns r.qclass text))
          (get_next_param dns fuel (after_calls dns fuel n r)).0
  streaming-serves n r e input some_request =
      let size = length (requests dns r.qclass text) in
      let first = Streams-first r e input in
      let there : Streams r (n % size) (after_calls dns fuel n r) =
        subst (λ (k : ℕ). Streams r (k % size) (after_calls dns fuel n r)) (omega arith)
          (after_calls-Streams r n 0 r some_request first) in
      (get_next_param-Streams r (n % size) (after_calls dns fuel n r) (mod-lt n some_request)
        there).0
