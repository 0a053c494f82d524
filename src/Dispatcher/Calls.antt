-- ===== src/Dispatcher/Calls.antt =====
-- How src/lib/dispatcher.cc uses the TCP sockets of the message manager (src/lib/message_manager.h):
-- what its calls come to, for the sockets of one event.
pub mod Sending
pub mod Events
pub mod Callbacks
pub mod Session
use queryperfpp.Base.{
  ℕ, zero, suc, ◌+◌, ◌≤◌, ◌≡◌, Bool, true, false, Option, none, some, List, [], ◌∷◌, ◌++◌, ◌==◌,
  if◌then◌else◌, arith,
}
use queryperfpp.Dispatcher.Types.{
  Call, create_udp, create_tcp, send_udp, send_tcp, delete_tcp, start_query_timer,
  start_session_timer, stop, QueryEvent, Dispatcher,
}
use queryperfpp.Dispatcher.Loop.{owns_socket, is_event}

-- An event holds no socket, one that has sent nothing yet, or one that has sent its query.
pub data Phase : Type 0 where
  unheld created asked : Phase

-- The calls about a socket. `none` is a wrong use: a second socket while one is held, a query over no
-- socket or a second query over one, a deletion of none.
abbrev pub on_create : Option Phase → Option Phase
on_create (some unheld) = some created
on_create _ = none

abbrev pub on_send : Option Phase → Option Phase
on_send (some created) = some asked
on_send _ = none

abbrev pub on_delete : Option Phase → Option Phase
on_delete (some created) = some unheld
on_delete (some asked) = some unheld
on_delete _ = none

-- A call, seen by the event number `i`.
abbrev pub on_call : ℕ → Call → Option Phase → Option Phase
on_call i (create_udp address port) p = p
on_call i (create_tcp ident address port) p = if ident == i then on_create p else p
on_call i (send_udp bytes) p = p
on_call i (send_tcp ident bytes) p = if ident == i then on_send p else p
on_call i (delete_tcp ident) p = if ident == i then on_delete p else p
on_call i (start_query_timer ident duration) p = p
on_call i (start_session_timer duration) p = p
on_call i stop p = p

-- The calls are newest first.
abbrev pub replay : ℕ → List Call → Option Phase
replay i [] = some unheld
replay i (c ∷ cs) = on_call i c (replay i cs)

abbrev pub one_if : Bool → ℕ
one_if b = if b then 1 else 0

module _ {C : Type 0} where
  -- The events with a number, and those of them that hold a socket.
  abbrev pub count : ℕ → List (QueryEvent C) → ℕ
  count i [] = 0
  count i (e ∷ es) = one_if (is_event i e) + count i es

  abbrev pub held : ℕ → List (QueryEvent C) → ℕ
  held i [] = 0
  held i (e ∷ es) = one_if (owns_socket i e) + held i es

  pub count-append :
      (i : ℕ) (xs ys : List (QueryEvent C)) → count i (xs ++ ys) ≡ count i xs + count i ys
  count-append i [] ys = omega arith
  count-append i (x ∷ xs) ys = omega (arith, count-append i xs ys)

  pub held-append :
      (i : ℕ) (xs ys : List (QueryEvent C)) → held i (xs ++ ys) ≡ held i xs + held i ys
  held-append i [] ys = omega arith
  held-append i (x ∷ xs) ys = omega (arith, held-append i xs ys)

  pub held-count : (i : ℕ) (es : List (QueryEvent C)) → held i es ≤ count i es
  held-count i [] = omega arith
  held-count i (e ∷ es) = ground (arith, held-count i es)

abbrev pub phase_by : ℕ → Phase
phase_by n = if n == 0 then unheld else asked

-- The calls so far are right for every event: those in the list hold what they say, and no other
-- event holds a socket. No two events of the list have one number.
pub record Conforms {C R : Type 0} (d : Dispatcher C R) : Type 0 where
  pub distinct : (i : ℕ) → count i d.outstanding ≤ 1
  pub sockets : (i : ℕ) → replay i d.manager.calls ≡ some (phase_by (held i d.outstanding))
