-- ===== src/Dispatcher/Calls/Callbacks.antt =====
-- The calls of the callbacks of src/lib/dispatcher.cc.
use queryperfpp.Base.{Gives, ℕ, refl, Text, Option}
use queryperfpp.Dispatcher.Types.{Source, Dispatcher}
use queryperfpp.Dispatcher.Query.{dispatch_query}
use queryperfpp.Dispatcher.Loop.{Delivery, deliver}
use queryperfpp.Dispatcher.Loop.Kept.{IsKept, deliver-Kept}
use queryperfpp.Dispatcher.Calls.{Conforms}
use queryperfpp.Dispatcher.Calls.Sending.{dispatch_query-Follows}
use queryperfpp.Dispatcher.Calls.Events.{
  Conforming, same-Conforms, count_completed-Conforms, put_back-Conforms, drop_event-Conforms,
  clear_socket_of-Conforms,
}

module _ {C R : Type 0} (source : Source C R) where
  Conforms-IsKept : IsKept source Conforms Conforms
  Conforms-IsKept = record {
    unchanged = λ d conforms. conforms;
    counted = count_completed-Conforms;
    ended = λ d conforms. same-Conforms d _ refl (λ _. refl) conforms;
    restarted = λ s d conforms split.
        put_back-Conforms s d conforms split
          (dispatch_query source (record { event = s.found; disp = d }))
          (dispatch_query-Follows source (record { event = s.found; disp = d }));
    dropped = drop_event-Conforms;
    cleared = clear_socket_of-Conforms;
  }

  pub deliver-Conforms :
      (parse_qid : Text → Option ℕ) (x : Delivery) (d : Dispatcher C R)
      → Conforms d
      → Gives Conforming (deliver source parse_qid x d)
  deliver-Conforms = deliver-Kept source Conforms Conforms Conforms-IsKept
