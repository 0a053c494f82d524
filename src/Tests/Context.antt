-- ===== src/Tests/Context.antt =====
-- The theorem about src/lib/query_context.cc at a sample repository.
use queryperfpp.Base.{◌≡◌, refl, [], ◌∷◌, ◌++◌, Text}
use queryperfpp.Context.{
  Message, MessageCall, clear_render, set_opcode_query, set_rcode_noerror, set_flag_rd,
  add_question, add_authority, set_edns_opt, set_qid,
}

-- A renderer that shows the kinds of the calls, and starts again at a `clear`.
abbrev render_call : Text → MessageCall → Text
render_call t clear_render = []
render_call t set_opcode_query = 1 ∷ t
render_call t set_rcode_noerror = 2 ∷ t
render_call t set_flag_rd = 3 ∷ t
render_call t (add_question q) = 4 ∷ t
render_call t (add_authority a) = 5 ∷ t
render_call t (set_edns_opt e) = 6 ∷ t
render_call t (set_qid n) = n ∷ t

abbrev pub render_from : Text → Message → Text
render_from t [] = t
render_from t (x ∷ xs) = render_from (render_call t x) xs

pub render-forgets :
    (t : Text) (before after : Message)
    → render_from t (before ++ clear_render ∷ after) ≡ render_from [] (clear_render ∷ after)
render-forgets t [] after = refl
render-forgets t (x ∷ xs) after = render-forgets (render_call t x) xs after
