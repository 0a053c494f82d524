-- ===== src/Repository/Unchanged.antt =====
-- What `QueryRepository::load` of src/lib/query_repository.cc leaves as it was, and that it loads.
use queryperfpp.Base.{
  ℕ, zero, suc, ◌≡◌, ◌∙◌, ◌++◌, true, false, Option, none, some, [], ◌∷◌, arith, Bool-cases, inl,
  inr, is_nil, length, Result, ok, err, Action, ◌>>◌,
}
use queryperfpp.Repository.Dns.{Dns, Request, RequestParam}
use queryperfpp.Repository.State.{
  Repository, load, load_loop, load_or, read_request, request_param, push_param, finish_load,
}

-- What a preload leaves alone.
pub record SameSettings (r s : Repository) : Type 0 where
  pub qclass : s.qclass ≡ r.qclass
  pub use_dnssec : s.use_dnssec ≡ r.use_dnssec
  pub use_edns : s.use_edns ≡ r.use_edns
  pub proto : s.proto ≡ r.proto
  pub options : s.edns ≡ r.edns

SameSettings-trans : {r s t : Repository} → SameSettings r s → SameSettings s t → SameSettings r t
SameSettings-trans p q = record {
  qclass = q.qclass ∙ p.qclass;
  use_dnssec = q.use_dnssec ∙ p.use_dnssec;
  use_edns = q.use_edns ∙ p.use_edns;
  proto = q.proto ∙ p.proto;
  options = q.options ∙ p.options;
}

module _ (dns : Dns) where
  pushed-SameSettings :
      (p : Result RequestParam) (again : Action Repository (Unit {0})) (r : Repository)
      → ((s : Repository) → SameSettings s (again s).1)
      → SameSettings r ((push_param p >> again) r).1
  unfolding push_param
  pushed-SameSettings (err e) again r h = ground arith
  pushed-SameSettings (ok param) again r h =
      SameSettings-trans {s = record r { params = r.params ++ param ∷ [] }} (ground arith) (h _)

  load_or-SameSettings :
      (res : Result (Option Request)) (again : Action Repository (Unit {0})) (r : Repository)
      → ((s : Repository) → SameSettings s (again s).1)
      → SameSettings r (load_or dns res again r).1
  unfolding load_or
  load_or-SameSettings (err e) again r h = ground arith
  load_or-SameSettings (ok none) again r h = ground arith
  load_or-SameSettings (ok (some (q, authorities))) again r h =
      pushed-SameSettings (request_param dns r (some q) authorities) again r h

  load_loop-SameSettings : (fuel : ℕ) (r : Repository) → SameSettings r (load_loop dns fuel r).1
  unfolding load_loop read_request
  load_loop-SameSettings zero r = ground arith
  load_loop-SameSettings (suc fuel) r =
      let (res, s) = read_request dns (suc (length r.input.rest)) false r in
      SameSettings-trans {s = s} (ground arith)
        (load_or-SameSettings res (load_loop dns fuel) s (load_loop-SameSettings fuel))

  finish_result-SameSettings :
      (res : Result (Unit {0})) (s r : Repository)
      → SameSettings s (◌>>◌ (λ (_ : Repository). (res, s)) finish_load r).1
  unfolding finish_load
  finish_result-SameSettings (err e) s r = ground arith
  finish_result-SameSettings (ok u) s r = ground arith

  pub load-SameSettings : (r : Repository) → SameSettings r (load dns r).1
  unfolding load
  load-SameSettings r = elim (Bool-cases (is_nil r.params)) [
    | inr e ↦ rw e (ground arith)
    | inl e ↦ rw e (
        let (res, s) = load_loop dns (suc (length r.input.rest)) r in
        SameSettings-trans (load_loop-SameSettings (suc (length r.input.rest)) r)
          (finish_result-SameSettings res s r))
  ]

-- A preload that returns has loaded something.
finish_result-filled :
    (res : Result (Unit {0})) (s r : Repository)
    → (◌>>◌ (λ (_ : Repository). (res, s)) finish_load r).0 ≡ ok tt
    → is_nil (◌>>◌ (λ (_ : Repository). (res, s)) finish_load r).1.params ≡ false
unfolding finish_load
finish_result-filled (err e) s r h = cc
finish_result-filled (ok u) s r h = ground arith

pub load-filled :
    (dns : Dns) (r : Repository)
    → is_nil r.params ≡ true
    → (load dns r).0 ≡ ok tt
    → is_nil (load dns r).1.params ≡ false
unfolding load
load-filled dns r e h =
    let (res, s) = load_loop dns (suc (length r.input.rest)) r in
    rw e (finish_result-filled res s r (rw e at h))
