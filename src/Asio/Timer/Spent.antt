-- ===== src/Asio/Timer/Spent.antt =====
-- How often an `ASIOMessageTimer` of src/lib/asio_message_manager.cc calls back.
use queryperfpp.Base.{ℕ, suc, ◌+◌, ◌≤◌, ◌≡◌, List, [], ◌∷◌, arith, Result, ok, err, ◌>>◌}
use queryperfpp.Asio.Timer.{
  Timer, new_timer, timer_start, timer_cancel, timer_delete, handle_expire, TimerStep, client_start,
  client_cancel, client_delete, time_up, handler, timer_perform, timer_perform_all,
}
use queryperfpp.Asio.Timer.Expiry.{
  running, due, TimerAllowed, AllTimerAllowed, running-cancel, due-cancel, running-expire,
  due-expire, remove-due,
}

-- How often a client sets the timer in these steps.
abbrev pub timer_starts : List TimerStep → ℕ
timer_starts [] = 0
timer_starts (client_start ec ∷ es) = suc (timer_starts es)
timer_starts (client_cancel ∷ es) = timer_starts es
timer_starts (client_delete ∷ es) = timer_starts es
timer_starts (time_up ∷ es) = timer_starts es
timer_starts (handler i ec ∷ es) = timer_starts es

-- The callbacks that were made, those that a queued handler makes, and those of waits that run.
abbrev calls_of : Timer → ℕ
calls_of t = t.fired + due t.waits + running t.waits

timer_perform-calls :
    (e : TimerStep) (t : Timer)
    → TimerAllowed e t
    → calls_of (timer_perform e t).1 ≤ calls_of t + timer_starts (e ∷ [])
unfolding timer_perform timer_start timer_cancel timer_delete handle_expire
timer_perform-calls (client_start ec) t a =
    ground (arith, running-cancel t.waits, due-cancel t.waits)
timer_perform-calls client_cancel t a = ground (arith, running-cancel t.waits, due-cancel t.waits)
timer_perform-calls client_delete t a = ground (arith, running-cancel t.waits, due-cancel t.waits)
timer_perform-calls time_up t a = ground (arith, running-expire t.waits, due-expire t.waits)
timer_perform-calls (handler i ec) t a = ground (arith, remove-due i t.waits ec a)

timer_starts-cons :
    (e : TimerStep) (es : List TimerStep)
    → timer_starts (e ∷ es) ≡ timer_starts (e ∷ []) + timer_starts es
timer_starts-cons (client_start ec) es = omega arith
timer_starts-cons client_cancel es = omega arith
timer_starts-cons client_delete es = omega arith
timer_starts-cons time_up es = omega arith
timer_starts-cons (handler i ec) es = omega arith

timer_perform_all-from :
    (es : List TimerStep) (t : Timer)
    → AllTimerAllowed es t
    → calls_of (timer_perform_all es t).1 ≤ calls_of t + timer_starts es
unfolding timer_perform_all
timer_perform_all-from [] t a = omega arith
timer_perform_all-from (e ∷ es) t (a, later) =
    go (timer_perform e t).0 (timer_perform e t).1 (timer_perform-calls e t a)
      (timer_perform_all-from es (timer_perform e t).1 later)
  where
    go :
        (r : Result (Unit {0})) (u : Timer)
        → calls_of u ≤ calls_of t + timer_starts (e ∷ [])
        → calls_of (timer_perform_all es u).1 ≤ calls_of u + timer_starts es
        → calls_of (◌>>◌ (λ (_ : Timer). (r, u)) (timer_perform_all es) t).1
          ≤ calls_of t + timer_starts (e ∷ es)
    go (ok _) u one rest = omega (arith, timer_starts-cons e es)
    go (err x) u one rest = omega (arith, timer_starts-cons e es)

-- A timer calls back at most once each time it is set, whatever happens to it.
pub timer_perform_all-spent :
    (es : List TimerStep)
    → AllTimerAllowed es new_timer
    → (timer_perform_all es new_timer).1.fired ≤ timer_starts es
unfolding new_timer
timer_perform_all-spent es a = omega (arith, timer_perform_all-from es new_timer a)
