-- ===== src/Asio/Tcp/Released.antt =====
-- A `TCPMessageSocket` of src/lib/asio_message_manager.cc that its client has deleted makes no callback
-- any more.
use queryperfpp.Base.{◌⊎◌, ◌≡◌, refl, true, some, List, [], ◌∷◌, arith, Result, ok, err, ◌∙◌, ◌>>◌}
use queryperfpp.Asio.Tcp.{
  TcpSocket, TcpStep, client_send, client_delete, connected, written, length_read, data_read,
  new_tcp, perform, perform_all, send_query_over, cancel, cancel_check, send_callback,
  handle_connect, handle_write, handle_read_length, handle_read_data, start_message, keep_first,
  Operation,
}
use queryperfpp.Asio.Tcp.Lifetime.{
  Allowed, IsSafe, Reachable, fresh, stepped, Reachable-IsSafe, length-pending, next_operation,
}

-- A socket that was given up is cancelled or gone.
abbrev pub GivenUp : TcpSocket → Type 0
GivenUp s = s.released ≡ true → (s.cancelled ≡ true) ⊎ (s.deleted ≡ true)

perform-GivenUp : (e : TcpStep) (s : TcpSocket) → GivenUp s → GivenUp (perform e s).1
unfolding perform send_query_over cancel cancel_check send_callback handle_connect handle_write
    handle_read_length handle_read_data start_message keep_first
perform-GivenUp (client_send bytes) s g = ground arith
perform-GivenUp client_delete s g = ground arith
perform-GivenUp (connected ec) s g = ground arith
perform-GivenUp (written ec shut) s g = ground arith
perform-GivenUp (length_read ec bytes) s g = ground arith
perform-GivenUp (data_read ec bytes) s g = ground arith

pub Reachable-GivenUp : (s : TcpSocket) → Reachable s → GivenUp s
unfolding new_tcp
Reachable-GivenUp s fresh = λ h. cc
Reachable-GivenUp u (stepped s t e r a p) = rw p at (perform-GivenUp e s (Reachable-GivenUp s r))

-- A step that makes no callback, and leaves the socket given up.
abbrev pub Silent : TcpSocket → Result (Unit {0}) × TcpSocket → Type 0
Silent s (r, t) = (r ≡ ok tt) × (t.events ≡ s.events) × (t.released ≡ true)

cancelled_now :
    (s : TcpSocket) (op : Operation)
    → IsSafe s
    → GivenUp s
    → s.released ≡ true
    → next_operation s.pending ≡ some op
    → s.cancelled ≡ true
cancelled_now s op v g h e = ground (arith, length-pending s.pending op e, g h)

pub perform-Silent :
    (e : TcpStep) (s : TcpSocket)
    → IsSafe s
    → GivenUp s
    → s.released ≡ true
    → Allowed e s
    → Silent s (perform e s)
unfolding perform cancel_check handle_connect handle_write handle_read_length handle_read_data
perform-Silent (client_send bytes) s v g h a = absurd (cc)
perform-Silent client_delete s v g h a = absurd (cc)
perform-Silent (connected ec) s v g h a = ground (arith, cancelled_now s _ v g h a)
perform-Silent (written ec shut) s v g h a = ground (arith, cancelled_now s _ v g h a)
perform-Silent (length_read ec bytes) s v g h a = ground (arith, cancelled_now s _ v g h a.0)
perform-Silent (data_read ec bytes) s v g h a = ground (arith, cancelled_now s _ v g h a.1)

abbrev pub AllAllowed : List TcpStep → TcpSocket → Type 0
AllAllowed [] s = Unit
AllAllowed (e ∷ es) s = Allowed e s × AllAllowed es (perform e s).1

-- Whatever happens to a socket that its client has deleted, in a state that is reachable: nothing is
-- thrown, and no callback is made.
pub perform_all-Silent :
    (es : List TcpStep) (s : TcpSocket)
    → Reachable s
    → s.released ≡ true
    → AllAllowed es s
    → Silent s (perform_all es s)
unfolding perform_all
perform_all-Silent [] s r h a = (refl, refl, h)
perform_all-Silent (e ∷ es) s r h (a, later) =
    go (perform e s).0 (perform e s).1 refl
      (perform-Silent e s (Reachable-IsSafe s r) (Reachable-GivenUp s r) h a) later
      λ t q h' later. perform_all-Silent es t (stepped s t e r a q) h' later
  where
    go :
        (x : Result (Unit {0})) (t : TcpSocket)
        → (perform e s ≡ (x, t))
        → Silent s (x, t)
        → AllAllowed es t
        → ((t : TcpSocket)
            → perform e s ≡ (ok tt, t)
            → t.released ≡ true
            → AllAllowed es t
            → Silent t (perform_all es t))
        → Silent s (◌>>◌ (λ (_ : TcpSocket). (x, t)) (perform_all es) s)
    go (ok tt) t q (o, same, h') later rest =
        let (fine, same', h'') = rest t q h' later in (fine, same' ∙ same, h'')
    go (err y) t q (o, same, h') later rest = absurd (cc)
