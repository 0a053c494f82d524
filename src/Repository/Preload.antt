-- ===== src/Repository/Preload.antt =====
-- `QueryRepository::load` of src/lib/query_repository.cc: the preloaded parameters are the requests
-- of the input, in order.
use mathlib.Core.List.{append_assoc, append-nil}
use queryperfpp.Base.{
  ℕ, zero, suc, ◌<◌, ◌≡◌, refl, sym, ap, ◌∙◌, Bool, true, false, not, ◌&&◌, ◌||◌, Option, none,
  some, List, [], ◌∷◌, ◌++◌, map, ◌==◌, is_nil, length, arith, Result, ok, err, empty_preload, ◌>>◌,
}
use queryperfpp.Stream.{Stream}
use queryperfpp.Repository.Dns.{Dns, Question, Request, RequestParam}
use queryperfpp.Repository.Reader.{read_next_request}
use queryperfpp.Repository.Reader.Takes.{IsOpen}
use queryperfpp.Repository.Reader.Forward.{Reads, read_next_request-Reads}
use queryperfpp.Repository.Requests.{lines, blanks, requests}
use queryperfpp.Repository.State.{
  load_or, finish_load, Repository, request_param, set_edns_policy, read_request, push_param,
  load_loop, load,
}

-- Zone transfers go without EDNS.
abbrev pub is_transfer : Dns → Question → Bool
is_transfer dns q = q.qtype == dns.axfr || q.qtype == dns.ixfr

-- The parameters that a request gets under the settings of a repository.
abbrev pub param_of : Dns → Repository → Request → RequestParam
param_of dns r (q, authorities) = record {
  question = some q;
  proto = r.proto;
  authorities = authorities;
  use_dnssec = not (is_transfer dns q) && r.use_dnssec;
  use_edns = not (is_transfer dns q) && r.use_edns;
}

module _ (dns : Dns) where
  -- The EDNS policy: AXFR and IXFR go without EDNS and the DO bit, any other type as configured.
  pub request_param-param_of :
      (r : Repository) (request : Request)
      → request_param dns r (some request.0) request.1 ≡ ok (param_of dns r request)
  unfolding request_param set_edns_policy
  request_param-param_of r (q, authorities) = ground arith

  abbrev params_of : Repository → List Request → List RequestParam
  params_of r rs = map (param_of dns r) rs

  -- A loop that has read `rs` into the vector.
  abbrev LoadsAll : Repository → List Request → Result (Unit {0}) × Repository → Type 0
  LoadsAll r rs (res, r') =
      (res ≡ ok tt) × (r'.params ≡ r.params ++ params_of r rs) × (r'.current ≡ r.current)

  load_loop-LoadsAll :
      (fuel : ℕ) (r : Repository)
      → IsOpen r.input
      → length r.input.rest < fuel
      → blanks (lines r.input.rest) < 1000
      → LoadsAll r (requests dns r.qclass r.input.rest) (load_loop dns fuel r)
  unfolding load_loop read_request load_or push_param
  load_loop-LoadsAll zero r o h k = elim h [ ]
  load_loop-LoadsAll (suc fuel) r o h k =
      go (requests dns r.qclass r.input.rest) first.0 first.1
        (read_next_request-Reads dns r.qclass (suc (length r.input.rest)) r.input o (omega arith) k)
        λ e. load_loop-LoadsAll fuel e
    where
      first : Result (Option Request) × Stream
      first = read_next_request dns r.qclass (suc (length r.input.rest)) false r.input

      pushed : Request → Stream → Repository
      pushed q s = record r { input = s; params = r.params ++ param_of dns r q ∷ [] }

      load_or-pushed :
          (q : Request) (s : Stream)
          → load_or dns (ok (some q)) (load_loop dns fuel) (record r { input = s })
            ≡ load_loop dns fuel (pushed q s)
      load_or-pushed q s = rw (request_param-param_of (record r { input = s }) q)

      go :
          (rs : List Request) (res : Result (Option Request)) (s : Stream)
          → Reads dns r.qclass rs (length r.input.rest) (res, s)
          → ((e : Repository)
              → IsOpen e.input
              → length e.input.rest < fuel
              → blanks (lines e.input.rest) < 1000
              → LoadsAll e (requests dns e.qclass e.input.rest) (load_loop dns fuel e))
          → LoadsAll r rs (load_or dns res (load_loop dns fuel) (record r { input = s }))
      go [] (ok none) s t again = (refl, sym (append-nil r.params), refl)
      go [] (ok (some _)) s t again = elim t [ ]
      go [] (err _) s t again = elim t [ ]
      go (q ∷ rs) (ok none) s t again = elim t [ ]
      go (q ∷ rs) (err _) s t again = elim t [ ]
      go (q ∷ rs) (ok (some q')) s t again =
          let (done, all, at) = again (pushed q s) t.1 (omega arith) t.4 in
          rw (t.0, load_or-pushed q s)
            (
              done,
              all
                  ∙ ap (λ xs. (r.params ++ param_of dns r q ∷ []) ++ params_of r xs) t.2
                  ∙ append_assoc r.params (param_of dns r q ∷ []) (params_of r rs),
              at,
            )

  load-new :
      (r : Repository)
      → r.params ≡ []
      → load dns r ≡ (load_loop dns (suc (length r.input.rest)) >> finish_load) r
  unfolding load
  load-new r e = let e' : is_nil r.params ≡ true = ap is_nil e in rw e'

  -- What `load` does with the requests of its input.
  abbrev pub Loads : Repository → List Request → Result (Unit {0}) × Repository → Type 0
  Loads r [] (res, r') = (res ≡ err empty_preload) × (r'.params ≡ [])
  Loads r (q ∷ rs) (res, r') =
      (res ≡ ok tt) × (r'.params ≡ map (param_of dns r) (q ∷ rs)) × (r'.current ≡ some 0)

  -- `load` on an input with fewer than 1000 empty and comment lines ends. It stores the parameters
  -- of the input's requests in order and points at the first, or throws if there are none.
  pub load-Loads :
      (r : Repository)
      → r.params ≡ []
      → IsOpen r.input
      → blanks (lines r.input.rest) < 1000
      → Loads r (requests dns r.qclass r.input.rest) (load dns r)
  unfolding finish_load
  load-Loads r new o k = rw (load-new r new) (
      go (requests dns r.qclass r.input.rest) (load_loop dns (suc (length r.input.rest)) r).0
        (load_loop dns (suc (length r.input.rest)) r).1
        (load_loop-LoadsAll (suc (length r.input.rest)) r o (omega arith) k))
    where
      go :
          (rs : List Request) (res : Result (Unit {0})) (r' : Repository)
          → LoadsAll r rs (res, r')
          → Loads r rs (◌>>◌ (λ (_ : Repository). (res, r')) finish_load r)
      go [] res r' all = let e : r'.params ≡ [] = (rw new at all.1) in rw (all.0, e) (refl, refl)
      go (q ∷ rs) res r' all =
          let e : r'.params ≡ map (param_of dns r) (q ∷ rs) = (rw new at all.1) in
          rw (all.0, e) (refl, refl, refl)
