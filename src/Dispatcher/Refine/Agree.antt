-- ===== src/Dispatcher/Refine/Agree.antt =====
-- What two sessions of src/lib/dispatcher.cc have in common, whatever the order of their lists.
use queryperfpp.Base.{ℕ, ◌+◌, ◌<◌, ◌≡◌, sym, subst, Option, Text, Result, ok, err}
use queryperfpp.Dispatcher.Types.{Source, Dispatcher}
use queryperfpp.Dispatcher.Query.{u64_mod}
use queryperfpp.Dispatcher.Loop.{Delivery, deliver}
use queryperfpp.Dispatcher.Spec.{Window, Label, Step}
use queryperfpp.Dispatcher.Spec.Unique.{Step-unique}
use queryperfpp.Dispatcher.Invariant.{Inv}
use queryperfpp.Dispatcher.Refine.{view, Does}
use queryperfpp.Dispatcher.Refine.Session.{label, deliver-Does}

-- If both returned, the abstract session sees the same.
abbrev pub Agrees :
    {C R C' R' : Type 0}
    → Result (Unit {0}) × Dispatcher C R
    → Result (Unit {0}) × Dispatcher C' R'
    → Type 0
Agrees (ok _, e) (ok _, e') = view e ≡ view e'
Agrees (ok _, e) (err _, e') = Unit
Agrees (err _, e) r = Unit

module _ {C R C' R' : Type 0} where
  Does-Agrees :
      (d : Dispatcher C R) (d' : Dispatcher C' R') (l : Label)
      (r : Result (Unit {0}) × Dispatcher C R) (r' : Result (Unit {0}) × Dispatcher C' R')
      → view d ≡ view d'
      → Does d l r
      → Does d' l r'
      → Agrees r r'
  Does-Agrees d d' l (ok u, e) (ok u', e') same s s' =
      Step-unique (view d) (view e) (view e') l s
        (subst (λ (v : Window). Step v l (view e')) (sym same) s')
  Does-Agrees d d' l (ok u, e) (err x, e') same s s' = tt
  Does-Agrees d d' l (err x, e) r' same s s' = tt

  -- Two dispatchers that have sent and completed as many queries and wait for the same ids, in
  -- whatever order, still do behind deliveries with the same meaning, if both return: the source, the
  -- sockets and the order of the list do not matter.
  pub deliver-Agrees :
      (source : Source C R) (source' : Source C' R') (parse_qid parse_qid' : Text → Option ℕ)
      (x x' : Delivery) (d : Dispatcher C R) (d' : Dispatcher C' R')
      → Inv d
      → Inv d'
      → d.queries_sent + 1 < u64_mod
      → d'.queries_sent + 1 < u64_mod
      → view d ≡ view d'
      → label parse_qid x d ≡ label parse_qid' x' d'
      → Agrees (deliver source parse_qid x d) (deliver source' parse_qid' x' d')
  deliver-Agrees source source' parse_qid parse_qid' x x' d d' inv inv' small small' same means =
      Does-Agrees d d' (label parse_qid x d) (deliver source parse_qid x d)
        (deliver source' parse_qid' x' d') same (deliver-Does source parse_qid x d inv small)
        (subst (λ (l : Label). Does d' l (deliver source' parse_qid' x' d')) (sym means)
          (deliver-Does source' parse_qid' x' d' inv' small'))
