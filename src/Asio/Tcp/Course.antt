-- ===== src/Asio/Tcp/Course.antt =====
-- Steps of a `TCPMessageSocket` of src/lib/asio_message_manager.cc that all return.
use queryperfpp.Base.{
  ◌≡◌, refl, subst, true, false, some, List, [], ◌∷◌, Result, ok, err, arith, ◌>>◌,
}
use queryperfpp.Asio.Tcp.{
  TcpSocket, TcpStep, client_send, client_delete, connected, written, length_read, data_read,
  perform, perform_all, send_query_over, cancel, cancel_check, send_callback, handle_connect,
  handle_write, handle_read_length, handle_read_data, start_message, keep_first, Operation,
}
use queryperfpp.Asio.Tcp.Lifetime.{
  IsSafe, Reachable, stepped, Reachable-IsSafe, length-pending, next_operation,
}
use queryperfpp.Asio.Tcp.Released.{AllAllowed}
use queryperfpp.Asio.Tcp.Client.{gives_up, client_part}

-- Steps that all return, one by one.
first_returns :
    (e : TcpStep) (es : List TcpStep) (s t : TcpSocket)
    → perform_all (e ∷ es) s ≡ (ok tt, t)
    → (u : TcpSocket) × (perform e s ≡ (ok tt, u)) × (perform_all es u ≡ (ok tt, t))
unfolding perform_all
first_returns e es s t p = go (perform e s).0 (perform e s).1 refl p
  where
    go :
        (r : Result (Unit {0})) (u : TcpSocket)
        → perform e s ≡ (r, u)
        → ◌>>◌ (λ (_ : TcpSocket). (r, u)) (perform_all es) s ≡ (ok tt, t)
        → (u : TcpSocket) × (perform e s ≡ (ok tt, u)) × (perform_all es u ≡ (ok tt, t))
    go (ok tt) u q p = (u, q, p)
    go (err x) u q p = absurd (cc)

pub perform_all-Reachable :
    (es : List TcpStep) (s t : TcpSocket)
    → Reachable s
    → AllAllowed es s
    → perform_all es s ≡ (ok tt, t)
    → Reachable t
unfolding perform_all
perform_all-Reachable [] s t r a p = let same : s ≡ t = cc in subst Reachable same r
perform_all-Reachable (e ∷ es) s t r (a, later) p =
    let (u, q, p') = first_returns e es s t p in
    perform_all-Reachable es u t (stepped s u e r a q)
      (subst (λ (x : Result (Unit {0}) × TcpSocket). AllAllowed es x.1) q later) p'

-- What a step keeps.
perform-released :
    (e : TcpStep) (s : TcpSocket) → s.released ≡ true → (perform e s).1.released ≡ true
unfolding perform send_query_over cancel cancel_check send_callback handle_connect handle_write
    handle_read_length handle_read_data start_message keep_first
perform-released (client_send bytes) s h = ground arith
perform-released client_delete s h = ground arith
perform-released (connected ec) s h = ground arith
perform-released (written ec shut) s h = ground arith
perform-released (length_read ec bytes) s h = ground arith
perform-released (data_read ec bytes) s h = ground arith

perform_all-released :
    (es : List TcpStep) (s t : TcpSocket)
    → perform_all es s ≡ (ok tt, t)
    → s.released ≡ true
    → t.released ≡ true
unfolding perform_all
perform_all-released [] s t p h =
    let same : s ≡ t = cc in subst (λ (x : TcpSocket). x.released ≡ true) same h
perform_all-released (e ∷ es) s t p h =
    let (u, q, p') = first_returns e es s t p in
    perform_all-released es u t p' (
      subst (λ (x : Result (Unit {0}) × TcpSocket). x.1.released ≡ true) q (perform-released e s h))

delete-released : (s : TcpSocket) → (perform client_delete s).1.released ≡ true
unfolding perform cancel
delete-released s = ground arith

-- A socket that its client has given up is released.
pub given_up-released :
    (es : List TcpStep) (s t : TcpSocket)
    → gives_up (client_part es) ≡ true
    → perform_all es s ≡ (ok tt, t)
    → t.released ≡ true
given_up-released [] s t g p = absurd (cc)
given_up-released (client_delete ∷ es) s t g p =
    let (u, q, p') = first_returns client_delete es s t p in
    perform_all-released es u t p'
      (subst (λ (x : Result (Unit {0}) × TcpSocket). x.1.released ≡ true) q (delete-released s))
given_up-released (client_send bytes ∷ es) s t g p =
    let (u, q, p') = first_returns (client_send bytes) es s t p in given_up-released es u t g p'
given_up-released (connected ec ∷ es) s t g p =
    let (u, q, p') = first_returns (connected ec) es s t p in given_up-released es u t g p'
given_up-released (written ec shut ∷ es) s t g p =
    let (u, q, p') = first_returns (written ec shut) es s t p in given_up-released es u t g p'
given_up-released (length_read ec bytes ∷ es) s t g p =
    let (u, q, p') = first_returns (length_read ec bytes) es s t p in given_up-released es u t g p'
given_up-released (data_read ec bytes ∷ es) s t g p =
    let (u, q, p') = first_returns (data_read ec bytes) es s t p in given_up-released es u t g p'

pub nothing_pending :
    (s : TcpSocket) (op : Operation)
    → IsSafe s
    → s.is_open ≡ false
    → next_operation s.pending ≡ some op
    → ⊥
nothing_pending s op v h e = omega (arith, (v.unopened h).0, length-pending s.pending op e)

-- A socket whose client did nothing is not open, and makes no callback.
pub still_closed :
    (es : List TcpStep) (s t : TcpSocket)
    → client_part es ≡ []
    → Reachable s
    → s.is_open ≡ false
    → AllAllowed es s
    → perform_all es s ≡ (ok tt, t)
    → t.is_open ≡ false
unfolding perform_all
still_closed [] s t n r h a p =
    let same : s ≡ t = cc in subst (λ (x : TcpSocket). x.is_open ≡ false) same h
still_closed (client_send bytes ∷ es) s t n r h a p = absurd (cc)
still_closed (client_delete ∷ es) s t n r h a p = absurd (cc)
still_closed (connected ec ∷ es) s t n r h a p =
    absurd (nothing_pending s _ (Reachable-IsSafe s r) h a.0)
still_closed (written ec shut ∷ es) s t n r h a p =
    absurd (nothing_pending s _ (Reachable-IsSafe s r) h a.0)
still_closed (length_read ec bytes ∷ es) s t n r h a p =
    absurd (nothing_pending s _ (Reachable-IsSafe s r) h a.0.0)
still_closed (data_read ec bytes ∷ es) s t n r h a p =
    absurd (nothing_pending s _ (Reachable-IsSafe s r) h a.0.1)
