-- ===== src/Traffic/Supplies.antt =====
-- Repositories of src/lib/query_repository.cc that serve requests round and round: one with a preload,
-- and one over an input that can seek.
use native.Mathlib.Nat.{mod-lt, mod-add-mod}
use queryperfpp.Base.{
  ℕ, suc, ◌+◌, ◌%◌, ◌<◌, ◌≡◌, refl, sym, ap, subst, ◌∙◌, false, Option, none, some, List, ◌∷◌, ◌++◌,
  map, Text, is_nil, length, get_elem?, arith, Result, ok, err,
}
use queryperfpp.Repository.Dns.{Dns, RequestParam}
use queryperfpp.Repository.Requests.{lines, blanks, filled, requests}
use queryperfpp.Repository.State.{Edns, Repository, empty_param, param_at, advance, get_next_param}
use queryperfpp.Repository.Cycle.{
  Returns, advance_lem, not_nil_pos, param_at-Returns, get_next_param-preloaded,
}
use queryperfpp.Repository.Streaming.{Streams, get_next_param-Streams}
use queryperfpp.Context.{Message, clear_render}
use queryperfpp.Repository.Preload.{param_of}
use queryperfpp.Repository.Streaming.Preloaded.{length-map}
use queryperfpp.Traffic.{Supply}

-- The parameters in turn.
abbrev pub param_or_empty : Option RequestParam → RequestParam
param_or_empty none = empty_param
param_or_empty (some param) = param

abbrev pub in_turn : List RequestParam → ℕ → RequestParam
in_turn params i = param_or_empty (get_elem? params (i % length params))

Returns-in_turn :
    (params : List RequestParam) (i : ℕ) (x : Result RequestParam)
    → Returns params (i % length params) x
    → x ≡ ok (in_turn params i)
Returns-in_turn params i (ok param) e =
    ap (λ (o : Option RequestParam). ok (param_or_empty o)) (sym e)
Returns-in_turn params i (err e) p = elim p [ ]

module _ (dns : Dns) (fuel : ℕ) (to_wire : Message → Text)
    (forgets : (before after : Message)
      → to_wire (before ++ clear_render ∷ after) ≡ to_wire (clear_render ∷ after))
    (edns : Edns) where
  module _ (params : List RequestParam) (some_param : is_nil params ≡ false) where
    abbrev size : ℕ
    size = length params

    abbrev pub AtPreloaded : ℕ → Repository → Type 0
    AtPreloaded i r = (r.params ≡ params) × (r.current ≡ some (i % length params)) × (r.edns ≡ edns)

    pub serve-preloaded :
        (i : ℕ) (r : Repository)
        → AtPreloaded i r
        → ((get_next_param dns fuel r).0 ≡ ok (in_turn params i))
          × AtPreloaded (suc i) (get_next_param dns fuel r).1
          × ((get_next_param dns fuel r).1.edns ≡ edns)
    serve-preloaded i r (all, at, options) =
        let pos = not_nil_pos params some_param in
        let r' : Repository = record r { current = some (suc i % length params) } in
        let next : advance (length r.params) r.current ≡ some (suc i % length params) =
          ap (λ (ps : List RequestParam). advance (length ps) r.current) all
          ∙ ap (advance (length params)) at
          ∙ advance_lem (length params) (i % length params) (mod-lt i pos)
          ∙ ap some
              (mod-add-mod i (length params) 1 ∙ ap (λ (k : ℕ). k % length params) (omega arith)) in
        let found : param_at r.params r.current ≡ ok (in_turn params i) =
          ap (λ (ps : List RequestParam). param_at ps r.current) all
          ∙ ap (param_at params) at
          ∙ Returns-in_turn params i (param_at params (some (i % length params)))
              (param_at-Returns params (i % length params) (mod-lt i pos)) in
        let step : get_next_param dns fuel r ≡ (ok (in_turn params i), r') =
          get_next_param-preloaded dns fuel r (ap is_nil all ∙ some_param)
          ∙ ap
              (λ (x : Result RequestParam).
                (x, record r { current = advance (length r.params) r.current }))
              found
          ∙ ap (λ (c : Option ℕ). (ok (in_turn params i), record r { current = c })) next in
        subst
          (λ (x : Result RequestParam × Repository).
            (x.0 ≡ ok (in_turn params i)) × AtPreloaded (suc i) x.1 × (x.1.edns ≡ edns))
          (sym step) (refl, (all, refl, options), options)

    abbrev pub preloaded : Supply
    preloaded = record {
      dns = dns;
      fuel = fuel;
      to_wire = to_wire;
      forgets = forgets;
      edns = edns;
      wanted = in_turn params;
      At = AtPreloaded;
      serve = serve-preloaded;
    }

  module _ (text : Text) (few : blanks (lines text) + 1 + blanks (lines text) < 1000)
      (enough : length (filled (lines text)) + length (filled (lines text)) < fuel)
      (r₀ : Repository) (options : r₀.edns ≡ edns)
      (some_request : 0 < length (requests dns r₀.qclass text)) where
    abbrev pub params_in : List RequestParam
    params_in = map (param_of dns r₀) (requests dns r₀.qclass text)

    same_size : length params_in ≡ length (requests dns r₀.qclass text)
    same_size = length-map (param_of dns r₀) (requests dns r₀.qclass text)

    abbrev pub AtStreaming : ℕ → Repository → Type 0
    AtStreaming i r =
        Streams dns text fuel few enough r₀ (i % length (requests dns r₀.qclass text)) r

    pub serve-streaming :
        (i : ℕ) (r : Repository)
        → AtStreaming i r
        → ((get_next_param dns fuel r).0 ≡ ok (in_turn params_in i))
          × AtStreaming (suc i) (get_next_param dns fuel r).1
          × ((get_next_param dns fuel r).1.edns ≡ edns)
    serve-streaming i r st =
        let count = length (requests dns r₀.qclass text) in
        let (returned, st') =
          get_next_param-Streams dns text fuel few enough r₀ (i % count) r (mod-lt i some_request)
            st in
        (
          Returns-in_turn params_in i (get_next_param dns fuel r).0 (
              subst (λ (k : ℕ). Returns params_in (i % k) (get_next_param dns fuel r).0)
                (sym same_size) returned),
          subst (λ (k : ℕ). Streams dns text fuel few enough r₀ k (get_next_param dns fuel r).1)
              (mod-add-mod i count 1 ∙ ap (λ (k : ℕ). k % count) (omega arith)) st',
          st'.options ∙ options,
        )

    abbrev pub streaming : Supply
    streaming = record {
      dns = dns;
      fuel = fuel;
      to_wire = to_wire;
      forgets = forgets;
      edns = edns;
      wanted = in_turn params_in;
      At = AtStreaming;
      serve = serve-streaming;
    }
