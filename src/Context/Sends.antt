-- ===== src/Context/Sends.antt =====
-- What `QueryContext::start` of src/lib/query_context.cc sends.
use mathlib.Core.List.{append_assoc}
use queryperfpp.Base.{ap, ◌∙◌, ℕ, ◌≡◌, refl, ap, ◌∙◌, [], ◌∷◌, ◌++◌, Text, Result, ok, err}
use queryperfpp.Repository.Dns.{Dns, RequestParam}
use queryperfpp.Repository.State.{Repository, get_next_param}
use queryperfpp.Context.{
  Message, clear_render, set_qid, query_calls, QuerySpec, QueryContext, get_next_query, start,
  fill_message, render_query,
}

-- `Message::clear(RENDER)` makes the message as new: what was done before it does not show.
module _ (dns : Dns) (fuel : ℕ) (to_wire : Message → Text)
    (forgets : (before after : Message)
      → to_wire (before ++ clear_render ∷ after) ≡ to_wire (clear_render ∷ after))
    (qid : ℕ) where
  -- The query of a parameter and an id, whatever the context sent before; or the error of the
  -- repository.
  abbrev pub Sends :
      QueryContext
      → Result RequestParam × Repository
      → Result QuerySpec × (QueryContext × Repository)
      → Type 0
  Sends c (ok param, r) (ok spec, (c', r')) =
      (spec.proto ≡ param.proto)
      × (spec.query ≡ to_wire (query_calls param r.edns ++ set_qid qid ∷ []))
      × (r' ≡ r)
  Sends c (err e, r) (err e', (c', r')) = (e' ≡ e) × (c' ≡ c) × (r' ≡ r)
  Sends c _ _ = ⊥

  -- Each query is made of the next parameter of the repository, its EDNS OPT RR and the id alone,
  -- though the context uses one message for all its queries; an exception of the repository goes on.
  pub start-Sends :
      (c : QueryContext) (r : Repository)
      → Sends c (get_next_param dns fuel r) (start dns fuel to_wire qid (c, r))
  unfolding start get_next_query fill_message render_query query_calls
  start-Sends c r = go (get_next_param dns fuel r)
    where
      bytes :
          (param : RequestParam) (r' : Repository)
          → to_wire ((c.message ++ query_calls param r'.edns) ++ set_qid qid ∷ [])
            ≡ to_wire (query_calls param r'.edns ++ set_qid qid ∷ [])
      bytes param r' =
          ap to_wire (append_assoc c.message (query_calls param r'.edns) (set_qid qid ∷ []))
          ∙ forgets c.message _

      go :
          (p : Result RequestParam × Repository)
          → Sends c p (render_query to_wire qid c (fill_message c.message p))
      go (ok param, r') = (refl, bytes param r', refl)
      go (err x, r') = (refl, refl, refl)
