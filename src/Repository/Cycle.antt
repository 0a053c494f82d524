-- ===== src/Repository/Cycle.antt =====
-- `getNextParam` of src/lib/query_repository.cc over preloaded parameters: round and round.
use native.Mathlib.Nat.{mod_self, mod-eq_of_lt, mod-lt, mod-add-mod}
use queryperfpp.Base.{
  get_elem?_total, List, [], ◌∷◌, map, ok, if_both, subst, ℕ, zero, suc, ◌+◌, ◌%◌, ◌<◌, ◌≡◌, refl,
  sym, ap, ◌∙◌, true, false, some, List, [], ◌∷◌, map, ◌==◌, is_nil, length, arith, get_elem?,
  get_elem?_total, Result, ok, err,
}
use queryperfpp.Repository.Dns.{Dns, RequestParam}
use queryperfpp.Repository.Dns.{Request}
use queryperfpp.Repository.Requests.{lines, blanks, requests}
use queryperfpp.Repository.Reader.Takes.{IsOpen}
use queryperfpp.Repository.Preload.{param_of, Loads, load-Loads}
use queryperfpp.Repository.State.{load, Repository, param_at, advance, get_next_param}

-- The repository behind `n` calls.
abbrev pub after_calls : Dns → ℕ → ℕ → Repository → Repository
after_calls dns fuel zero r = r
after_calls dns fuel (suc n) r = after_calls dns fuel n (get_next_param dns fuel r).1

-- The parameter at an index.
abbrev pub Returns : List RequestParam → ℕ → Result RequestParam → Type 0
Returns params i (ok param) = get_elem? params i ≡ some param
Returns params i (err e) = ⊥

-- Adding one and wrapping at the end is adding one modulo the length.
pub advance_lem : (n i : ℕ) → i < n → advance n (some i) ≡ some ((i + 1) % n)
unfolding advance
advance_lem n i h = ap some (if_both (λ (k : ℕ). k ≡ (i + 1) % n) (i + 1 == n) at_end inside)
  where
    at_end : (i + 1 == n) ≡ true → 0 ≡ (i + 1) % n
    at_end e = let e' : i + 1 ≡ n = ground arith in rw e' (sym (mod_self n))

    inside : (i + 1 == n) ≡ false → i + 1 ≡ (i + 1) % n
    inside e = sym (mod-eq_of_lt (ground arith))

pub not_nil_pos : {A : Type 0} (xs : List A) → is_nil xs ≡ false → 0 < length xs
not_nil_pos [] h = cc
not_nil_pos (x ∷ xs) h = omega arith

pub param_at-Returns :
    (params : List RequestParam) (i : ℕ)
    → i < length params
    → Returns params i (param_at params (some i))
unfolding param_at
param_at-Returns params i h =
    let (a, e) = get_elem?_total params i h in
    let found : param_at params (some i) ≡ ok a = rw (e, param_at) refl in
    subst (Returns params i) (sym found) e

module _ (dns : Dns) (fuel : ℕ) where
  pub get_next_param-preloaded :
      (r : Repository)
      → is_nil r.params ≡ false
      → get_next_param dns fuel r
        ≡ (param_at r.params r.current, record r { current = advance (length r.params) r.current })
  unfolding get_next_param
  get_next_param-preloaded r h = rw h

  after_calls-current :
      (n i : ℕ) (r : Repository)
      → is_nil r.params ≡ false
      → r.current ≡ some i
      → i < length r.params
      → ((after_calls dns fuel n r).params ≡ r.params)
        × ((after_calls dns fuel n r).current ≡ some ((i + n) % length r.params))
  after_calls-current zero i r h e lt =
      let size = length r.params in
      (refl, e ∙ ap some (sym (ap (λ (k : ℕ). k % size) (omega arith) ∙ mod-eq_of_lt lt)))
  after_calls-current (suc n) i r h e lt =
      let size = length r.params in
      let next : Repository = record r { current = some ((i + 1) % size) } in
      let step : (get_next_param dns fuel r).1 ≡ next =
        rw (get_next_param-preloaded r h, e, advance_lem size i lt) in
      let (same, at) =
        after_calls-current n ((i + 1) % size) next h refl (mod-lt (i + 1) (omega arith)) in
      subst
        (λ (q : Repository).
          ((after_calls dns fuel n q).params ≡ r.params)
          × ((after_calls dns fuel n q).current ≡ some ((i + suc n) % size)))
        (sym step)
        (same, at ∙ ap some (mod-add-mod (i + 1) size n ∙ ap (λ k. k % size) (omega arith)))

  -- After a preload of `size` parameters from the first on, the call number `n` returns the parameter
  -- number `n` modulo `size`: the requests come in order, and again from the first.
  pub get_next_param-cycle :
      (n : ℕ) (r : Repository)
      → is_nil r.params ≡ false
      → r.current ≡ some 0
      → Returns r.params
          (n % length r.params)
          (get_next_param dns fuel (after_calls dns fuel n r)).0
  get_next_param-cycle n r h e =
      let size = length r.params in
      let q = after_calls dns fuel n r in
      let (same, at) = after_calls-current n 0 r h e (not_nil_pos r.params h) in
      let step : (get_next_param dns fuel q).0 ≡ param_at r.params (some (n % size)) =
        ap (λ (p : Result RequestParam × Repository). p.0)
          (get_next_param-preloaded q (ap is_nil same ∙ h))
        ∙ ap (λ (ps : List RequestParam). param_at ps q.current) same
        ∙ ap (param_at r.params) (at ∙ ap (λ (k : ℕ). some (k % size)) (omega arith)) in
      subst (Returns r.params (n % size)) (sym step)
        (param_at-Returns r.params (n % size) (mod-lt n (not_nil_pos r.params h)))

  -- A preload followed by any number of calls: the call number `n` returns the parameters of the
  -- request number `n` of the input, counted modulo the number of requests.
  pub load-serves :
      (n : ℕ) (r : Repository) (q : Request) (rs : List Request)
      → r.params ≡ []
      → IsOpen r.input
      → blanks (lines r.input.rest) < 1000
      → requests dns r.qclass r.input.rest ≡ q ∷ rs
      → ((load dns r).0 ≡ ok tt)
        × (let params = map (param_of dns r) (q ∷ rs) in
            Returns params
              (n % length params)
              (get_next_param dns fuel (after_calls dns fuel n (load dns r).1)).0)
  load-serves n r q rs new o k found =
      let (done, all, at) =
        subst (λ (xs : List Request). Loads dns r xs (load dns r)) found
          (load-Loads dns r new o k) in
      (
        done,
        subst
            (λ (ps : List RequestParam).
              Returns ps (n % length ps)
                (get_next_param dns fuel (after_calls dns fuel n (load dns r).1)).0)
            all (get_next_param-cycle n (load dns r).1 (ap is_nil all) at),
      )
