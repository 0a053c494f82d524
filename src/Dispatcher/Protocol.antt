-- ===== src/Dispatcher/Protocol.antt =====
-- The order in which a session of src/lib/dispatcher.cc calls its message manager
-- (src/lib/message_manager.h).
pub mod Sending
pub mod Callbacks
pub mod Session
use queryperfpp.Base.{ℕ, suc, ◌%◌, ◌≡◌, Bool, true, false, List, [], ◌∷◌, Text}
use queryperfpp.Dispatcher.Types.{
  Call, create_udp, create_tcp, send_udp, send_tcp, delete_tcp, start_query_timer,
  start_session_timer, stop, Dispatcher,
}
use queryperfpp.Dispatcher.Query.{u64_mod}

-- The calls of a session, newest first, with the number of its queries, stopped or not. First comes
-- the UDP socket to the server, then the session timer. A query starts the timer of its event, and
-- goes over the UDP socket or over a new TCP socket of that event, without a call in between. TCP
-- sockets are deleted between the queries. Nothing is called behind `stop`.
pub data IsTrace (address : Text) (port duration timeout : ℕ) : List Call → ℕ → Bool → Type 0 where
  opened :
      IsTrace address port duration timeout
        (start_session_timer duration ∷ create_udp address port ∷ [])
        0
        false
  over_udp :
      (i n : ℕ) (query : Text) (calls : List Call)
      → IsTrace address port duration timeout calls n false
      → IsTrace address port duration timeout
          (send_udp query ∷ start_query_timer i timeout ∷ calls)
          (suc n)
          false
  over_tcp :
      (i n : ℕ) (query : Text) (calls : List Call)
      → IsTrace address port duration timeout calls n false
      → IsTrace address port duration timeout
          (send_tcp i query ∷ create_tcp i address port ∷ start_query_timer i timeout ∷ calls)
          (suc n)
          false
  deleted :
      (i n : ℕ) (calls : List Call)
      → IsTrace address port duration timeout calls n false
      → IsTrace address port duration timeout (delete_tcp i ∷ calls) n false
  stopped :
      (n : ℕ) (calls : List Call)
      → IsTrace address port duration timeout calls n false
      → IsTrace address port duration timeout (stop ∷ calls) n true

-- A dispatcher with these settings has made such calls so far, and counts its queries in 64 bits.
pub record Traced (address : Text) (port duration timeout : ℕ) {C R : Type 0} (d : Dispatcher C R)
    : Type 0 where
  pub same_address : d.server_address ≡ address
  pub same_port : d.server_port ≡ port
  pub same_duration : d.test_duration ≡ duration
  pub same_timeout : d.query_timeout ≡ timeout
  pub queries : ℕ
  pub trace : IsTrace address port duration timeout d.manager.calls queries d.manager.stopped
  pub counted : d.queries_sent ≡ queries % u64_mod

-- The event loop runs.
pub record Running (address : Text) (port duration timeout : ℕ) {C R : Type 0} (d : Dispatcher C R)
    : Type 0 where
  pub traced : Traced address port duration timeout d
  pub runs : d.manager.stopped ≡ false
