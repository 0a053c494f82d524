-- ===== src/Repository/Streaming/Preloaded.antt =====
-- A repository of src/lib/query_repository.cc with a preload and one without.
use queryperfpp.Base.{
  ℕ, suc, ◌+◌, ◌%◌, ◌<◌, ◌≡◌, refl, sym, ap, subst, ◌∙◌, true, List, [], ◌∷◌, map, Text, length,
  arith, Result, ok, err,
}
use queryperfpp.Stream.{Stream, open_stream}
use queryperfpp.Repository.Dns.{Dns, Request, RequestParam}
use queryperfpp.Repository.Requests.{lines, blanks, filled, requests}
use queryperfpp.Repository.Reader.Takes.{IsOpen}
use queryperfpp.Repository.Reader.Rewind.{over}
use queryperfpp.Repository.State.{Repository, load, get_next_param}
use queryperfpp.Repository.Preload.{param_of}
use queryperfpp.Repository.Cycle.{Returns, after_calls, load-serves}
use queryperfpp.Repository.Streaming.{streaming-serves}

Returns-unique :
    (params : List RequestParam) (i : ℕ) (x y : Result RequestParam)
    → Returns params i x
    → Returns params i y
    → x ≡ y
Returns-unique params i (ok a) (ok b) p q = cc
Returns-unique params i (ok a) (err e) p q = elim q [ ]
Returns-unique params i (err e) y p q = elim p [ ]

pub length-map : {A B : Type 0} (f : A → B) (xs : List A) → length (map f xs) ≡ length xs
length-map f [] = refl
length-map f (x ∷ xs) = ap suc (length-map f xs)

pub over-IsOpen : (text : Text) → IsOpen (over text text)
over-IsOpen text = record { sound = refl; whole = λ _. refl; done = λ e. cc }

module _ (dns : Dns) (text : Text) (fuel : ℕ) where
  -- For an input that can seek and has a request, in which twice as many empty and comment lines and
  -- one are below 1000, and with fuel for twice the other lines, each call returns the same after a
  -- preload as without one.
  pub streaming-load :
      (n : ℕ) (r : Repository)
      → r.params ≡ []
      → r.input ≡ open_stream text true
      → 0 < length (requests dns r.qclass text)
      → blanks (lines text) + 1 + blanks (lines text) < 1000
      → length (filled (lines text)) + length (filled (lines text)) < fuel
      → (get_next_param dns fuel (after_calls dns fuel n r)).0
        ≡ (get_next_param dns fuel (after_calls dns fuel n (load dns r).1)).0
  unfolding open_stream
  streaming-load n r e input some_request few enough = go (requests dns r.qclass text) refl
    where
      params : List RequestParam
      params = map (param_of dns r) (requests dns r.qclass text)

      size : length params ≡ length (requests dns r.qclass text)
      size = length-map (param_of dns r) (requests dns r.qclass text)

      go :
          (rs : List Request)
          → requests dns r.qclass text ≡ rs
          → (get_next_param dns fuel (after_calls dns fuel n r)).0
            ≡ (get_next_param dns fuel (after_calls dns fuel n (load dns r).1)).0
      go [] same = absurd (omega (arith, ap (λ (xs : List Request). length xs) same))
      go (q ∷ rs) same =
          let rest : r.input.rest ≡ text = ap (λ (s : Stream). s.rest) input in
          let preloaded =
            load-serves dns fuel n r q rs e (subst IsOpen (sym input) (over-IsOpen text))
              (subst (λ (t : Text). blanks (lines t) < 1000) (sym rest) (omega arith))
              (ap (requests dns r.qclass) rest ∙ same) in
          Returns-unique params (n % length params) _ _
            (subst
              (λ (k : ℕ).
                Returns params (n % k) (get_next_param dns fuel (after_calls dns fuel n r)).0)
              (sym size) (streaming-serves dns text fuel few enough n r e input some_request))
            (subst
              (λ (xs : List Request).
                Returns (map (param_of dns r) xs) (n % length (map (param_of dns r) xs))
                  (get_next_param dns fuel (after_calls dns fuel n (load dns r).1)).0)
              (sym same) preloaded.1)
