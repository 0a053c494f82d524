-- ===== src/Asio/Timer.antt =====
-- `ASIOMessageTimer` of src/lib/asio_message_manager.cc.
pub mod Expiry
pub mod Deleted
pub mod Spent
use queryperfpp.Base.{
  ℕ, zero, suc, Bool, false, true, ◌≡◌, ◌≢◌, Option, none, some, List, [], ◌∷◌, map, if◌then◌else◌,
  timer_failure, ok, err, Action, ◌>>◌,
}
use queryperfpp.Asio.Types.{ErrorCode, is_set, is_aborted, success, aborted}

-- A call of `async_wait` whose handler has not run: its time is not up, or the handler is queued
-- because it is, or because it was cancelled before.
pub data Wait : Type 0 where
  waiting expired cancelled : Wait

-- `waits` are newest first. `fired` counts the calls of the callback. `deleted` is set by the
-- destructor.
pub record Timer : Type 0 where
  pub waits : List Wait
  pub fired : ℕ
  pub deleted : Bool

unfoldable pub new_timer : Timer
new_timer = record { waits = []; fired = 0; deleted = false }

-- asio cancels what has not expired. A handler that is queued stays, with its error code.
abbrev pub cancel_wait : Wait → Wait
cancel_wait waiting = cancelled
cancel_wait expired = expired
cancel_wait cancelled = cancelled

-- The time is up.
abbrev pub expire_wait : Wait → Wait
expire_wait waiting = expired
expire_wait expired = expired
expire_wait cancelled = cancelled

-- `start`; `expires_from_now` cancels, and gives `ec`.
unfoldable pub timer_start : ErrorCode → Action Timer (Unit {0})
timer_start ec t =
    if is_set ec
    then (err timer_failure, t)
    else (ok tt, record t { waits = waiting ∷ map cancel_wait t.waits })

-- `cancel`
unfoldable pub timer_cancel : Timer → Timer
timer_cancel t = record t { waits = map cancel_wait t.waits }

-- The destructor, with that of the `deadline_timer`, which cancels.
unfoldable pub timer_delete : Timer → Timer
timer_delete t = record t { waits = map cancel_wait t.waits; deleted = true }

-- `handleExpire`
unfoldable pub handle_expire : ErrorCode → Action Timer (Unit {0})
handle_expire ec t =
    if is_aborted ec
    then (ok tt, t)
    else if is_set ec
    then (err timer_failure, t)
    else (ok tt, record t { fired = suc t.fired })

-- What happens to a timer: the calls of its client, the end of its time, and the handler of one of
-- its waits, by its place.
pub data TimerStep : Type 0 where
  client_start : ErrorCode → TimerStep
  client_cancel : TimerStep
  client_delete : TimerStep
  time_up : TimerStep
  handler : ℕ → ErrorCode → TimerStep

abbrev pub remove_at : ℕ → List Wait → List Wait
remove_at n [] = []
remove_at zero (w ∷ ws) = ws
remove_at (suc n) (w ∷ ws) = w ∷ remove_at n ws

unfoldable pub timer_perform : TimerStep → Action Timer (Unit {0})
unfolding timer_start timer_cancel timer_delete handle_expire
timer_perform (client_start ec) t = timer_start ec t
timer_perform client_cancel t = (ok tt, timer_cancel t)
timer_perform client_delete t = (ok tt, timer_delete t)
timer_perform time_up t = (ok tt, record t { waits = map expire_wait t.waits })
timer_perform (handler i ec) t = handle_expire ec (record t { waits = remove_at i t.waits })

unfoldable pub timer_perform_all : List TimerStep → Action Timer (Unit {0})
timer_perform_all [] t = (ok tt, t)
timer_perform_all (e ∷ es) t = (timer_perform e >> timer_perform_all es) t
