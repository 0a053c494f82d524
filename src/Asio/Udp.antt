-- ===== src/Asio/Udp.antt =====
-- `UDPMessageSocket` of src/lib/asio_message_manager.cc.
use queryperfpp.Base.{
  ◌-◌, ℕ, suc, ◌≤◌, ◌≡◌, Bool, true, false, List, [], ◌∷◌, if◌then◌else◌, Text, arith,
  socket_failure, undefined, Result, ok, err, Action,
}
use queryperfpp.Asio.Types.{ErrorCode, is_set}

-- `receives` counts the pending calls of `async_receive`; `sent` and `received` are newest first.
pub record UdpSocket : Type 0 where
  pub receiving : Bool
  pub receives : ℕ
  pub sent : List Text
  pub received : List Text
  pub deleted : Bool

-- The constructor; `refused` is whether the address, `connect` or `set_option` throws.
unfoldable pub new_udp : Bool → Result UdpSocket
new_udp refused =
    if refused
    then err socket_failure
    else ok (record { receiving = false; receives = 0; sent = []; received = []; deleted = false })

unfoldable pub receive : UdpSocket → UdpSocket
receive s = record s { receives = suc s.receives }

-- `send`; the first one starts the receiving.
unfoldable pub udp_send : ErrorCode → Text → Action UdpSocket (Unit {0})
unfolding receive
udp_send ec bytes s = if is_set ec then (err socket_failure, s) else (
  ok tt,
  let s' = record s { sent = bytes ∷ s.sent } in
      if s.receiving then s' else record (receive s') { receiving = true },
)

-- `handleRead`. The callback may throw, and the socket then receives no more.
unfoldable pub udp_handle_read : ErrorCode → Text → Result (Unit {0}) → Action UdpSocket (Unit {0})
unfolding receive
udp_handle_read ec bytes callback s =
    if is_set ec
    then (err socket_failure, s)
    else let s' = record s { received = bytes ∷ s.received } in
      elim callback [ ok _ ↦ (ok tt, receive s') | err e ↦ (err e, s') ]

-- `cancel`: `delete this`.
unfoldable pub udp_cancel : UdpSocket → UdpSocket
udp_cancel s = record s { deleted = true }

-- What happens to a socket: a call of `send` or of `cancel`, or the completion of a receive.
pub data UdpStep : Type 0 where
  udp_sends : ErrorCode → Text → UdpStep
  udp_cancels : UdpStep
  udp_reads : ErrorCode → Text → Result (Unit {0}) → UdpStep

-- No method can run on a deleted object.
unfoldable pub if_alive : Action UdpSocket (Unit {0}) → Action UdpSocket (Unit {0})
if_alive m s = if s.deleted then (err undefined, s) else m s

-- asio takes a receive off before it calls the handler.
unfoldable pub udp_perform : UdpStep → Action UdpSocket (Unit {0})
unfolding udp_send udp_cancel udp_handle_read if_alive
udp_perform (udp_sends ec bytes) s = if_alive (udp_send ec bytes) s
udp_perform udp_cancels s = if_alive (λ t. (ok tt, udp_cancel t)) s
udp_perform (udp_reads ec bytes callback) s =
    if_alive (udp_handle_read ec bytes callback) (record s { receives = s.receives - 1 })

-- A completion comes only for a pending receive.
abbrev pub UdpAllowed : UdpStep → UdpSocket → Type 0
UdpAllowed (udp_sends ec bytes) s = Unit
UdpAllowed udp_cancels s = Unit
UdpAllowed (udp_reads ec bytes callback) s = 1 ≤ s.receives

-- From the first query on exactly one receive is pending, and none before.
pub record IsListening (s : UdpSocket) : Type 0 where
  pub quiet : s.receiving ≡ false → (s.receives ≡ 0) × (s.sent ≡ [])
  pub alive : s.deleted ≡ false
  pub pending : s.receiving ≡ true → s.receives ≡ 1

abbrev pub UdpLeaves : UdpStep → UdpSocket → Result (Unit {0}) × UdpSocket → Type 0
UdpLeaves udp_cancels s (ok _, s') = (s'.deleted ≡ true) × (s'.receives ≡ s.receives)
UdpLeaves e s (ok _, s') = IsListening s'
UdpLeaves udp_cancels s (err _, s') = ⊥
UdpLeaves (udp_sends ec bytes) s (err _, s') = s' ≡ s
UdpLeaves (udp_reads ec bytes callback) s (err _, s') = s'.receives ≡ 0

-- Every send and receive of a UDP socket that lives and has exactly one receive pending from the first
-- query sent on, and none before, keeps it so, if it returns. A send that throws leaves the socket as it
-- was; a receive that throws, or whose callback throws, leaves none pending. The deletion leaves the
-- receive pending that there was.
pub udp_perform-Leaves :
    (e : UdpStep) (s : UdpSocket) → IsListening s → UdpAllowed e s → UdpLeaves e s (udp_perform e s)
unfolding udp_perform udp_send udp_cancel udp_handle_read receive if_alive
udp_perform-Leaves (udp_sends ec bytes) s v a = ground arith
udp_perform-Leaves udp_cancels s v a = ground arith
udp_perform-Leaves (udp_reads ec bytes callback) s v a = ground arith
