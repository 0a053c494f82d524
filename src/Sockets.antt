-- ===== src/Sockets.antt =====
-- The TCP sockets of a session: src/lib/dispatcher.cc over src/lib/asio_message_manager.cc. The calls
-- of the dispatcher about the sockets of one event are the client's part of what happens to them.
pub mod Lives
pub mod Session
pub mod Held
use queryperfpp.Base.{
  Gives, ℕ, zero, suc, ◌≡◌, refl, sym, ap, subst, ◌∙◌, Bool, true, false, Bool-cases, inl, inr,
  Option, none, some, List, [], ◌∷◌, ◌++◌, ◌==◌, if◌then◌else◌, get_elem?, Text, Result, ok, err,
  arith,
}
use queryperfpp.Dispatcher.Types.{
  Source, Call, create_udp, create_tcp, send_udp, send_tcp, delete_tcp, start_query_timer,
  start_session_timer, stop, Dispatcher,
}
use queryperfpp.Dispatcher.Loop.{Delivery}
use queryperfpp.Dispatcher.Session.{run}
use queryperfpp.Dispatcher.Invariant.Session.{IsFresh}
use queryperfpp.Dispatcher.Calls.{
  Phase, unheld, created, asked, on_create, on_send, on_delete, on_call, replay, held, phase_by,
}
use queryperfpp.Dispatcher.Calls.Events.{Conforming}
use queryperfpp.Dispatcher.Calls.Session.{run-Conforms}
use queryperfpp.Asio.Tcp.{TcpStep, client_send, client_delete, new_tcp, perform_all}
use queryperfpp.Asio.Tcp.Lifetime.{Leaves}
use queryperfpp.Asio.Tcp.Released.{AllAllowed}
use queryperfpp.Asio.Tcp.Client.{
  IsLife, untouched, sent, sent_deleted, unsent_deleted, client_part, CompletionsAllowed,
  client-Leaves,
}

-- One more step of the newest socket.
abbrev then_step : TcpStep → List (List TcpStep) → List (List TcpStep)
then_step e [] = (e ∷ []) ∷ []
then_step e (s ∷ ss) = (s ++ e ∷ []) ∷ ss

-- What the calls of the manager do with the sockets of one event: the steps of the client for each
-- socket, in their order; the newest socket comes first.
abbrev pub script_call : ℕ → Call → List (List TcpStep) → List (List TcpStep)
script_call i (create_tcp ident address port) ss = if ident == i then [] ∷ ss else ss
script_call i (send_tcp ident bytes) ss =
    if ident == i then then_step (client_send bytes) ss else ss
script_call i (delete_tcp ident) ss = if ident == i then then_step client_delete ss else ss
script_call i (create_udp address port) ss = ss
script_call i (send_udp bytes) ss = ss
script_call i (start_query_timer ident duration) ss = ss
script_call i (start_session_timer duration) ss = ss
script_call i stop ss = ss

abbrev pub scripts : ℕ → List Call → List (List TcpStep)
scripts i [] = []
scripts i (c ∷ cs) = script_call i c (scripts i cs)
