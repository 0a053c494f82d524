-- ===== src/Asio/Timer/Deleted.antt =====
-- An `ASIOMessageTimer` of src/lib/asio_message_manager.cc that its client has deleted.
use queryperfpp.Base.{ℕ, ◌+◌, ◌≤◌, ◌≡◌, refl, true, List, [], ◌∷◌, arith, Result, ok, err, ◌>>◌}
use queryperfpp.Asio.Timer.{
  Timer, timer_delete, handle_expire, TimerStep, client_start, client_cancel, client_delete,
  time_up, handler, timer_perform, timer_perform_all,
}
use queryperfpp.Asio.Timer.Expiry.{
  running, due, running-cancel, due-cancel, TimerAllowed, AllTimerAllowed, remove-due,
}

-- A deleted timer runs no wait, and has made or queued so many calls of its callback.
record IsDeleted (n : ℕ) (t : Timer) : Type 0 where
  gone : t.deleted ≡ true
  still : running t.waits ≡ 0
  called : t.fired + due t.waits ≡ n

-- Behind a step, and behind several.
abbrev Rests : ℕ → Result (Unit {0}) × Timer → Type 0
Rests n (ok _, t) = IsDeleted n t
Rests n (err _, t) = (t.fired ≤ n) × (t.deleted ≡ true)

abbrev pub Bounded : ℕ → Result (Unit {0}) × Timer → Type 0
Bounded n (r, t) = (t.fired ≤ n) × (t.deleted ≡ true)

perform-Rests :
    (e : TimerStep) (t : Timer) (n : ℕ)
    → IsDeleted n t
    → TimerAllowed e t
    → Rests n (timer_perform e t)
unfolding timer_perform handle_expire
perform-Rests (client_start ec) t n v a = absurd (cc)
perform-Rests client_cancel t n v a = absurd (cc)
perform-Rests client_delete t n v a = absurd (cc)
perform-Rests time_up t n v a = absurd (omega (arith, v.still))
perform-Rests (handler i ec) t n v a = ground (arith, remove-due i t.waits ec a)

perform_all-Bounded :
    (es : List TimerStep) (t : Timer) (n : ℕ)
    → IsDeleted n t
    → AllTimerAllowed es t
    → Bounded n (timer_perform_all es t)
unfolding timer_perform_all
perform_all-Bounded [] t n v a = (omega (arith, v.called), v.gone)
perform_all-Bounded (e ∷ es) t n v (a, later) =
    go (timer_perform e t).0 (timer_perform e t).1 (perform-Rests e t n v a) later
      λ u w later. perform_all-Bounded es u n w later
  where
    go :
        (r : Result (Unit {0})) (u : Timer)
        → Rests n (r, u)
        → AllTimerAllowed es u
        → ((u : Timer) → IsDeleted n u → AllTimerAllowed es u → Bounded n (timer_perform_all es u))
        → Bounded n (◌>>◌ (λ (_ : Timer). (r, u)) (timer_perform_all es) t)
    go (ok _) u w later rest = rest u w later
    go (err x) u w later rest = w

-- A timer that is deleted calls back, from then on, at most as often as handlers of its waits were
-- queued because their time was up; if none was, it calls back no more.
pub timer_perform_all-Bounded :
    (es : List TimerStep) (t : Timer)
    → AllTimerAllowed es (timer_delete t)
    → Bounded (t.fired + due t.waits) (timer_perform_all es (timer_delete t))
unfolding timer_delete
timer_perform_all-Bounded es t a =
    perform_all-Bounded es (timer_delete t) (t.fired + due t.waits)
      (record {
        gone = refl;
        still = running-cancel t.waits;
        called = omega (arith, due-cancel t.waits);
      })
      a
