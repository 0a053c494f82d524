-- ===== src/Asio/Manager.antt =====
-- `ASIOMessageManager::createMessageSocket` of src/lib/asio_message_manager.cc.
use queryperfpp.Base.{
  ◌≢◌, ◌<◌, ◌<◌, ◌⊎◌, ◌≤◌, false, true, arith, ◌≡◌, ℕ, Bool, if◌then◌else◌, ltb, ◌==◌, not,
  null_callback, small_buffer, bad_protocol, system_failure, Result, ok, err,
}
use queryperfpp.Repository.State.{ipproto_udp, ipproto_tcp}
use queryperfpp.Asio.Tcp.Lifetime.{IsSafe}
use queryperfpp.Asio.Udp.{IsListening, UdpSocket, new_udp}
use queryperfpp.Asio.Tcp.{TcpSocket, new_tcp}

pub data MessageSocket : Type 0 where
  udp_socket : UdpSocket → MessageSocket
  tcp_socket : TcpSocket → MessageSocket

abbrev as_udp : Result UdpSocket → Result MessageSocket
as_udp (ok s) = ok (udp_socket s)
as_udp (err e) = err e

-- `refused` is whether the constructor of the socket throws: asio refuses the address or, for UDP,
-- the connection. For TCP the `system_error` of asio goes on as it is.
unfoldable pub create_message_socket : Bool → ℕ → ℕ → Bool → Result MessageSocket
unfolding new_udp new_tcp
create_message_socket callback proto recvbuf_len refused =
    if not callback
    then err null_callback
    else if proto == ipproto_udp
    then as_udp (new_udp refused)
    else if proto == ipproto_tcp
    then if ltb recvbuf_len 65535
      then err small_buffer
      else if refused
      then err system_failure
      else ok (tcp_socket new_tcp)
    else err bad_protocol

-- When a socket is made: there is a callback, the constructor goes through, and the protocol is UDP,
-- or it is TCP and the buffer holds any message.
abbrev pub Makes : Bool → ℕ → ℕ → Bool → Result MessageSocket → Type 0
Makes callback proto recvbuf_len refused (ok (udp_socket s)) =
    (callback ≡ true) × (refused ≡ false) × (proto ≡ ipproto_udp) × IsListening s
Makes callback proto recvbuf_len refused (ok (tcp_socket s)) =
    (callback ≡ true) × (refused ≡ false) × (proto ≡ ipproto_tcp) × (65535 ≤ recvbuf_len) × IsSafe s
Makes callback proto recvbuf_len refused (err e) =
    (callback ≡ false)
    ⊎ ((refused ≡ true)
        ⊎ (((proto ≡ ipproto_tcp) × (recvbuf_len < 65535))
            ⊎ ((proto ≢ ipproto_udp) × (proto ≢ ipproto_tcp))))

-- `createMessageSocket` makes a socket of the protocol that was asked for, in its first state, exactly
-- if there is a callback, asio takes the address, the protocol is UDP or TCP and, for TCP, the buffer
-- has 65535 bytes; else it throws.
pub create_message_socket-Makes :
    (callback : Bool) (proto recvbuf_len : ℕ) (refused : Bool)
    → Makes callback proto recvbuf_len refused
        (create_message_socket callback proto recvbuf_len refused)
unfolding create_message_socket new_udp new_tcp
create_message_socket-Makes callback proto recvbuf_len refused = ground arith
