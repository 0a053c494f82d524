-- ===== src/Tests/Asio.antt =====
-- The theorems about src/lib/asio_message_manager.cc at sample sockets.
use queryperfpp.Base.{◌≡◌, refl, true, false, List, [], ◌∷◌, ok, arith}
use queryperfpp.Asio.Types.{success, eof, failed, aborted, data_event, null_event}
use queryperfpp.Asio.Tcp.{
  TcpSocket, new_tcp, client_send, client_delete, connected, length_read, data_read, perform,
  perform_all, encode_length, cancel, send_query_over,
}
use queryperfpp.Asio.Tcp.Lifetime.{
  Leaves, perform-Leaves, Reachable, fresh, stepped, Reachable-IsSafe, Allowed-alive, Frees,
  cancel-Frees,
}
use queryperfpp.Asio.Timer.{
  Timer, TimerStep, client_start, client_cancel, time_up, handler, expired, new_timer, timer_start,
  timer_cancel, timer_delete, handle_expire, timer_perform, timer_perform_all,
}
use queryperfpp.Asio.Timer.Deleted.{Bounded, timer_perform_all-Bounded}
use queryperfpp.Asio.Timer.Expiry.{
  running, TimerAllowed, AllTimerAllowed, Times, timer_perform_all-Times, timer_start-Fires,
}
use queryperfpp.Asio.Tcp.Exchange.{connection, Ends, perform_all-answer, perform_all-reset}
use queryperfpp.Asio.Manager.{Makes, create_message_socket, create_message_socket-Makes}
use queryperfpp.Asio.Udp.{UdpSocket, UdpLeaves, udp_perform, udp_reads, udp_perform-Leaves}

-- A socket that connects, to send one byte.
abbrev connecting : TcpSocket
unfolding new_tcp send_query_over
connecting = send_query_over (7 ∷ []) new_tcp

connecting-Reachable : Reachable connecting
unfolding connecting new_tcp send_query_over perform
connecting-Reachable = stepped new_tcp connecting (client_send (7 ∷ [])) fresh (refl, refl) refl

perform-Leaves_example : Leaves (perform (connected success) connecting)
unfolding connecting new_tcp send_query_over
perform-Leaves_example =
    perform-Leaves (connected success) connecting (Reachable-IsSafe connecting connecting-Reachable)
      refl

Allowed-alive_example : connecting.deleted ≡ false
unfolding connecting new_tcp send_query_over
Allowed-alive_example = Allowed-alive connecting (connected aborted) connecting-Reachable refl

cancel-Frees_example : Frees (cancel connecting).1
unfolding connecting new_tcp send_query_over
cancel-Frees_example = cancel-Frees connecting connecting-Reachable refl

perform_all-answer_example : Ends (data_event (1 ∷ 2 ∷ []) 2) 1 (
    perform_all
      (connection (7 ∷ []) (1 ∷ 2 ∷ []) ((3 ∷ []) ∷ []) (length_read eof [] ∷ []))
      new_tcp)
perform_all-answer_example =
    perform_all-answer (7 ∷ []) (1 ∷ 2 ∷ []) ((3 ∷ []) ∷ []) (omega arith) (omega arith)

perform_all-reset_example : Ends (null_event 2) 1 (
    perform_all
      (connection
        (7 ∷ [])
        (1 ∷ 2 ∷ [])
        []
        (length_read success (encode_length 300) ∷ data_read failed [] ∷ []))
      new_tcp)
perform_all-reset_example =
    perform_all-reset (7 ∷ []) (1 ∷ 2 ∷ []) [] 300 (omega arith) (omega arith) (omega arith)

abbrev listening : UdpSocket
listening = record {
  receiving = true;
  receives = 1;
  sent = (7 ∷ []) ∷ [];
  received = [];
  deleted = false;
}

udp_perform-Leaves_example :
    UdpLeaves
      (udp_reads success (9 ∷ []) (ok tt))
      listening
      (udp_perform (udp_reads success (9 ∷ []) (ok tt)) listening)
udp_perform-Leaves_example =
    udp_perform-Leaves (udp_reads success (9 ∷ []) (ok tt)) listening (ground arith) (omega arith)

create_message_socket-Makes_example :
    Makes true 6 65535 false (create_message_socket true 6 65535 false)
create_message_socket-Makes_example = create_message_socket-Makes true 6 65535 false

-- The socket, deleted by its client while it connects, and then the aborted connect.
abbrev given_up : TcpSocket
unfolding connecting new_tcp send_query_over
given_up = record connecting { cancelled = true; released = true }

given_up-Reachable : Reachable given_up
unfolding given_up connecting new_tcp send_query_over perform cancel
given_up-Reachable = stepped connecting given_up client_delete connecting-Reachable refl refl

-- A timer that is set, expires, is set again, and cancelled.
abbrev timer_steps : List TimerStep
timer_steps =
    client_start success
    ∷ time_up
    ∷ client_start success
    ∷ client_cancel
    ∷ handler 0 aborted
    ∷ handler 0 success
    ∷ []

timer_steps-AllTimerAllowed : AllTimerAllowed timer_steps new_timer
unfolding new_timer timer_perform timer_start timer_cancel handle_expire
timer_steps-AllTimerAllowed = (refl, (omega arith, (refl, (refl, (refl, (refl, tt))))))

timer_perform_all-Times_example : Times 1 (timer_perform_all timer_steps new_timer)
timer_perform_all-Times_example = timer_perform_all-Times timer_steps timer_steps-AllTimerAllowed

abbrev expired_timer : Timer
expired_timer = record { waits = expired ∷ []; fired = 0; deleted = false }

timer_start-Fires_example :
    TimerAllowed (handler 1 success) (timer_start success expired_timer).1
    × ((timer_perform (handler 1 success) (timer_start success expired_timer).1).1.fired ≡ 1)
    × (running (timer_perform (handler 1 success) (timer_start success expired_timer).1).1.waits
        ≡ 1)
timer_start-Fires_example = timer_start-Fires 0 expired_timer refl

timer_perform_all-Bounded_example :
    Bounded 1 (timer_perform_all (handler 0 success ∷ []) (timer_delete expired_timer))
unfolding timer_delete
timer_perform_all-Bounded_example =
    timer_perform_all-Bounded (handler 0 success ∷ []) expired_timer (refl, tt)
