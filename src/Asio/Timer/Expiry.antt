-- ===== src/Asio/Timer/Expiry.antt =====
-- When the callback of an `ASIOMessageTimer` of src/lib/asio_message_manager.cc is made.
use queryperfpp.Base.{
  ℕ, zero, suc, ◌+◌, ◌≤◌, ◌<◌, ◌≡◌, refl, Option, some, List, [], ◌∷◌, map, get_elem?, arith,
  if◌then◌else◌, Result, ok, err, ◌>>◌, false,
}
use queryperfpp.Asio.Types.{ErrorCode, is_aborted, success, aborted}
use queryperfpp.Asio.Timer.{
  Wait, waiting, expired, cancelled, Timer, new_timer, cancel_wait, expire_wait, timer_start,
  timer_cancel, timer_delete, handle_expire, TimerStep, client_start, client_cancel, client_delete,
  time_up, handler, remove_at, timer_perform, timer_perform_all,
}

-- How many waits are running, and how many have a handler queued that calls back.
abbrev pub running : List Wait → ℕ
running [] = 0
running (waiting ∷ ws) = suc (running ws)
running (expired ∷ ws) = running ws
running (cancelled ∷ ws) = running ws

abbrev pub due : List Wait → ℕ
due [] = 0
due (waiting ∷ ws) = due ws
due (expired ∷ ws) = suc (due ws)
due (cancelled ∷ ws) = due ws

-- A handler gets the code that its wait was queued with.
abbrev pub Gets : Option Wait → ErrorCode → Type 0
Gets (some expired) ec = is_aborted ec ≡ false
Gets (some cancelled) ec = ec ≡ aborted
Gets _ ec = ⊥

-- What can happen: a client does not touch a timer that it has deleted, and asio says that time is up
-- only to a timer that runs.
abbrev pub TimerAllowed : TimerStep → Timer → Type 0
TimerAllowed (client_start ec) t = t.deleted ≡ false
TimerAllowed client_cancel t = t.deleted ≡ false
TimerAllowed client_delete t = t.deleted ≡ false
TimerAllowed time_up t = 0 < running t.waits
TimerAllowed (handler i ec) t = Gets (get_elem? t.waits i) ec

abbrev pub AllTimerAllowed : List TimerStep → Timer → Type 0
AllTimerAllowed [] t = Unit
AllTimerAllowed (e ∷ es) t = TimerAllowed e t × AllTimerAllowed es (timer_perform e t).1

-- How often the time was up in these steps.
abbrev pub times_up : List TimerStep → ℕ
times_up [] = 0
times_up (time_up ∷ es) = suc (times_up es)
times_up (client_start ec ∷ es) = times_up es
times_up (client_cancel ∷ es) = times_up es
times_up (client_delete ∷ es) = times_up es
times_up (handler i ec ∷ es) = times_up es

pub running-cancel : (ws : List Wait) → running (map cancel_wait ws) ≡ 0
running-cancel [] = refl
running-cancel (waiting ∷ ws) = running-cancel ws
running-cancel (expired ∷ ws) = running-cancel ws
running-cancel (cancelled ∷ ws) = running-cancel ws

pub due-cancel : (ws : List Wait) → due (map cancel_wait ws) ≡ due ws
due-cancel [] = refl
due-cancel (waiting ∷ ws) = due-cancel ws
due-cancel (expired ∷ ws) = omega (arith, due-cancel ws)
due-cancel (cancelled ∷ ws) = due-cancel ws

pub running-expire : (ws : List Wait) → running (map expire_wait ws) ≡ 0
running-expire [] = refl
running-expire (waiting ∷ ws) = running-expire ws
running-expire (expired ∷ ws) = running-expire ws
running-expire (cancelled ∷ ws) = running-expire ws

pub due-expire : (ws : List Wait) → due (map expire_wait ws) ≡ due ws + running ws
due-expire [] = omega arith
due-expire (waiting ∷ ws) = omega (arith, due-expire ws)
due-expire (expired ∷ ws) = omega (arith, due-expire ws)
due-expire (cancelled ∷ ws) = due-expire ws

-- What the code of a handler adds.
abbrev calls_back : ErrorCode → ℕ
calls_back ec = if is_aborted ec then 0 else 1

pub remove-due :
    (i : ℕ) (ws : List Wait) (ec : ErrorCode)
    → Gets (get_elem? ws i) ec
    → (due (remove_at i ws) + calls_back ec ≡ due ws) × (running (remove_at i ws) ≡ running ws)
remove-due i [] ec g = elim g [ ]
remove-due zero (waiting ∷ ws) ec g = elim g [ ]
remove-due zero (expired ∷ ws) ec g = ground arith
remove-due zero (cancelled ∷ ws) ec g = ground arith
remove-due (suc i) (waiting ∷ ws) ec g = omega (arith, remove-due i ws ec g)
remove-due (suc i) (expired ∷ ws) ec g = omega (arith, remove-due i ws ec g)
remove-due (suc i) (cancelled ∷ ws) ec g = omega (arith, remove-due i ws ec g)

-- Behind `n` ends of the time: one call of the callback for each, made or queued, and at most one wait
-- that runs.
pub record IsTimed (n : ℕ) (t : Timer) : Type 0 where
  pub called : t.fired + due t.waits ≡ n
  pub single : running t.waits ≤ 1

abbrev pub Times : ℕ → Result (Unit {0}) × Timer → Type 0
Times n (ok _, t) = IsTimed n t
Times n (err _, t) = t.fired + due t.waits ≤ n

timer_perform-Times :
    (e : TimerStep) (t : Timer) (n : ℕ)
    → IsTimed n t
    → TimerAllowed e t
    → Times (n + times_up (e ∷ [])) (timer_perform e t)
unfolding timer_perform timer_start timer_cancel timer_delete handle_expire
timer_perform-Times (client_start ec) t n v a =
    ground (arith, running-cancel t.waits, due-cancel t.waits)
timer_perform-Times client_cancel t n v a =
    ground (arith, running-cancel t.waits, due-cancel t.waits)
timer_perform-Times client_delete t n v a =
    ground (arith, running-cancel t.waits, due-cancel t.waits)
timer_perform-Times time_up t n v a = ground (arith, running-expire t.waits, due-expire t.waits)
timer_perform-Times (handler i ec) t n v a = ground (arith, remove-due i t.waits ec a)

times_up-cons :
    (e : TimerStep) (es : List TimerStep) → times_up (e ∷ es) ≡ times_up (e ∷ []) + times_up es
times_up-cons (client_start ec) es = omega arith
times_up-cons client_cancel es = omega arith
times_up-cons client_delete es = omega arith
times_up-cons time_up es = omega arith
times_up-cons (handler i ec) es = omega arith

timer_perform_all-from :
    (es : List TimerStep) (t : Timer) (n total : ℕ)
    → IsTimed n t
    → AllTimerAllowed es t
    → n + times_up es ≡ total
    → Times total (timer_perform_all es t)
unfolding timer_perform_all
timer_perform_all-from [] t n total v a m = ground (arith, v)
timer_perform_all-from (e ∷ es) t n total v (a, later) m =
    go (timer_perform e t).0 (timer_perform e t).1 (timer_perform-Times e t n v a) later
      λ u w later.
        timer_perform_all-from es u (n + times_up (e ∷ [])) total w later
          (omega (arith, times_up-cons e es))
  where
    go :
        (r : Result (Unit {0})) (u : Timer)
        → Times (n + times_up (e ∷ [])) (r, u)
        → AllTimerAllowed es u
        → ((u : Timer)
            → IsTimed (n + times_up (e ∷ [])) u
            → AllTimerAllowed es u
            → Times total (timer_perform_all es u))
        → Times total (◌>>◌ (λ (_ : Timer). (r, u)) (timer_perform_all es) t)
    go (ok _) u w later rest = rest u w later
    go (err x) u w later rest = omega (arith, times_up-cons e es)

-- Whatever is done with a timer, its callback is made once for each time that was up before it was
-- set again or cancelled, and never otherwise, or its handler is still queued to make it; at most one
-- wait runs. If a call throws, no more callbacks than that are made.
pub timer_perform_all-Times :
    (es : List TimerStep)
    → AllTimerAllowed es new_timer
    → Times (times_up es) (timer_perform_all es new_timer)
unfolding new_timer
timer_perform_all-Times es a =
    timer_perform_all-from es new_timer 0 (times_up es) (ground arith) a (omega arith)

pub get_elem?-cancel :
    (ws : List Wait) (i : ℕ)
    → get_elem? ws i ≡ some expired
    → get_elem? (map cancel_wait ws) i ≡ some expired
get_elem?-cancel [] i e = e
get_elem?-cancel (waiting ∷ ws) zero e = cc
get_elem?-cancel (expired ∷ ws) zero e = refl
get_elem?-cancel (cancelled ∷ ws) zero e = cc
get_elem?-cancel (w ∷ ws) (suc i) e = get_elem?-cancel ws i e

-- A timer that is set again when the handler of its last wait is queued already: that handler can
-- still run and calls back, while the new wait runs.
pub timer_start-Fires :
    (i : ℕ) (t : Timer)
    → get_elem? t.waits i ≡ some expired
    → TimerAllowed (handler (suc i) success) (timer_start success t).1
      × ((timer_perform (handler (suc i) success) (timer_start success t).1).1.fired ≡ suc t.fired)
      × (running (timer_perform (handler (suc i) success) (timer_start success t).1).1.waits ≡ 1)
unfolding timer_perform timer_start handle_expire
timer_start-Fires i t e =
    let next = get_elem?-cancel t.waits i e in
    let allowed : Gets (get_elem? (map cancel_wait t.waits) i) success = rw next refl in
    (
      allowed,
      refl,
      omega (arith, remove-due i (map cancel_wait t.waits) success allowed, running-cancel t.waits),
    )
