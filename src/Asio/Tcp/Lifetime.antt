-- ===== src/Asio/Tcp/Lifetime.antt =====
-- The life of a `TCPMessageSocket` of src/lib/asio_message_manager.cc: which operations are pending,
-- when the callback is made, and when the object is gone.
use queryperfpp.Base.{
  inl, inr, Bool-cases, ◌⊎◌, ℕ, ◌≤◌, ◌<◌, ◌≡◌, refl, Bool, true, false, Option, none, some, List,
  [], ◌∷◌, length, arith, Text, unexpected_length, Result, ok, err,
}
use queryperfpp.Asio.Types.{ErrorCode}
use queryperfpp.Asio.Tcp.{
  is_aborted, Operation, connect, write, read_length, read_data, TcpSocket, TcpStep, client_send,
  client_delete, connected, written, length_read, data_read, new_tcp, perform, later, finish,
  send_query_over, cancel, cancel_check, send_callback, handle_connect, handle_write,
  handle_read_length, handle_read_data, start_message, keep_first,
}

abbrev pub next_operation : List Operation → Option Operation
next_operation [] = none
next_operation (op ∷ ops) = some op

-- What can happen. A client sends at most once, and does not touch a socket that it has deleted; asio
-- completes a pending operation, with no more bytes than its buffer holds.
abbrev pub Allowed : TcpStep → TcpSocket → Type 0
Allowed (client_send bytes) s = (s.released ≡ false) × (s.is_open ≡ false)
Allowed client_delete s = s.released ≡ false
Allowed (connected ec) s = next_operation s.pending ≡ some connect
Allowed (written ec shut) s = next_operation s.pending ≡ some write
Allowed (length_read ec bytes) s =
    (next_operation s.pending ≡ some read_length) × (length bytes ≤ 2)
Allowed (data_read ec bytes) s =
    (n : ℕ) × (next_operation s.pending ≡ some (read_data n)) × (length bytes ≤ n)

pub record IsSafe (s : TcpSocket) : Type 0 where
  -- No handler is called on a deleted object.
  pub gone : s.deleted ≡ true → length s.pending ≡ 0
  -- Until the callback there is one operation to wait for, and never more.
  pub single : length s.pending ≤ 1
  pub waits : s.is_open ≡ true → s.completed ≡ false → s.cancelled ≡ false → length s.pending ≡ 1
  pub unopened : s.is_open ≡ false → (length s.pending ≡ 0) × (s.completed ≡ false)
  -- The callback is made once, and then nothing is pending.
  pub answered : s.completed ≡ true → (length s.events ≡ 1) × (length s.pending ≡ 0)
  pub unanswered : s.completed ≡ false → length s.events ≡ 0
  -- The client's delete cancels or deletes, and nothing else does.
  pub held : s.released ≡ false → (s.cancelled ≡ false) × (s.deleted ≡ false)

-- What a step leaves: a safe socket, or an exception about a length, with no callback made.
abbrev pub Leaves : Result (Unit {0}) × TcpSocket → Type 0
Leaves (ok _, s) = IsSafe s
Leaves (err x, s) =
    (x ≡ unexpected_length) × (length s.pending ≡ 0) × (length s.events ≡ 0) × (s.deleted ≡ false)

length-later : (ops : List Operation) → length ops ≤ 1 → length (later ops) ≡ 0
length-later [] h = refl
length-later (op ∷ []) h = refl
length-later (op ∷ op' ∷ ops) h = omega arith

pub length-pending :
    (ops : List Operation) (op : Operation) → next_operation ops ≡ some op → 0 < length ops
length-pending [] op e = cc
length-pending (x ∷ ops) op e = omega arith

pub new_tcp-IsSafe : IsSafe new_tcp
unfolding new_tcp
new_tcp-IsSafe = ground arith

send-IsSafe :
    (bytes : Text) (s : TcpSocket)
    → IsSafe s
    → s.released ≡ false
    → s.is_open ≡ false
    → IsSafe (send_query_over bytes s)
unfolding send_query_over
send-IsSafe bytes s v r o = ground (arith)

cancel-Leaves : (s : TcpSocket) → IsSafe s → s.released ≡ false → Leaves (cancel s)
unfolding cancel
cancel-Leaves s v r = ground (arith)

module _ (s : TcpSocket) (v : IsSafe s) (op : Operation)
    (next : next_operation s.pending ≡ some op) where
  connect-Leaves : (ec : ErrorCode) → Leaves (handle_connect ec (finish s))
  unfolding handle_connect cancel_check send_callback
  connect-Leaves ec =
      ground (arith, length-pending s.pending op next, length-later s.pending v.single)

  write-Leaves : (ec : ErrorCode) (shut : Bool) → Leaves (handle_write ec shut (finish s))
  unfolding handle_write cancel_check send_callback
  write-Leaves ec shut =
      ground (arith, length-pending s.pending op next, length-later s.pending v.single)

  length-Leaves : (ec : ErrorCode) (bytes : Text) → Leaves (handle_read_length ec bytes (finish s))
  unfolding handle_read_length cancel_check send_callback start_message
  length-Leaves ec bytes =
      ground (arith, length-pending s.pending op next, length-later s.pending v.single)

  data-Leaves : (ec : ErrorCode) (bytes : Text) → Leaves (handle_read_data ec bytes (finish s))
  unfolding handle_read_data cancel_check send_callback keep_first
  data-Leaves ec bytes =
      ground (arith, length-pending s.pending op next, length-later s.pending v.single)

-- Every step that can happen keeps a socket safe. If it throws, it is about the two bytes of a length
-- that came one by one: no callback was made, and nothing is pending.
pub perform-Leaves : (e : TcpStep) (s : TcpSocket) → IsSafe s → Allowed e s → Leaves (perform e s)
unfolding perform
perform-Leaves (client_send bytes) s v a = send-IsSafe bytes s v a.0 a.1
perform-Leaves client_delete s v a = cancel-Leaves s v a
perform-Leaves (connected ec) s v a = connect-Leaves s v connect a ec
perform-Leaves (written ec shut) s v a = write-Leaves s v write a ec shut
perform-Leaves (length_read ec bytes) s v a = length-Leaves s v read_length a.0 ec bytes
perform-Leaves (data_read ec bytes) s v a = data-Leaves s v (read_data a.0) a.1 ec bytes

-- The sockets that some steps lead to.
pub data Reachable : TcpSocket → Type 0 where
  fresh : Reachable new_tcp
  stepped :
      (s t : TcpSocket) (e : TcpStep)
      → Reachable s
      → Allowed e s
      → perform e s ≡ (ok tt, t)
      → Reachable t

pub Reachable-IsSafe : (s : TcpSocket) → Reachable s → IsSafe s
Reachable-IsSafe s fresh = new_tcp-IsSafe
Reachable-IsSafe u (stepped s t e r a p) = rw p at (perform-Leaves e s (Reachable-IsSafe s r) a)

pending_alive :
    (s : TcpSocket) (op : Operation)
    → IsSafe s
    → next_operation s.pending ≡ some op
    → s.deleted ≡ false
pending_alive s op v next = ground (arith, length-pending s.pending op next)

-- Neither its client nor asio touches a socket that has been deleted: whatever can happen to a
-- socket in a reachable state, the object is still there.
pub Allowed-alive : (s : TcpSocket) (e : TcpStep) → Reachable s → Allowed e s → s.deleted ≡ false
Allowed-alive s e r a = go e (Reachable-IsSafe s r) a
  where
    go : (e : TcpStep) → IsSafe s → Allowed e s → s.deleted ≡ false
    go (client_send bytes) v a = (v.held a.0).1
    go client_delete v a = (v.held a).1
    go (connected ec) v a = pending_alive s connect v a
    go (written ec shut) v a = pending_alive s write v a
    go (length_read ec bytes) v a = pending_alive s read_length v a.0
    go (data_read ec bytes) v a = pending_alive s (read_data a.0) v a.1

-- The completion of an operation with an error code and no bytes.
abbrev pub completion : Operation → ErrorCode → TcpStep
completion connect ec = connected ec
completion write ec = written ec false
completion read_length ec = length_read ec []
completion (read_data n) ec = data_read ec []

-- A socket that is gone, or goes with the completion that is aborted and with no other.
abbrev pub Frees : TcpSocket → Type 0
Frees s =
    (s.deleted ≡ true)
    ⊎ ((op : Operation) × (next_operation s.pending ≡ some op)
        × ((ec : ErrorCode) → (perform (completion op ec) s).1.deleted ≡ is_aborted ec))

waiting :
    (ops : List Operation) → length ops ≡ 1 → (op : Operation) × (next_operation ops ≡ some op)
waiting [] e = absurd (omega arith)
waiting (op ∷ ops) e = (op, refl)

cancelled-completion :
    (s : TcpSocket) (op : Operation) (ec : ErrorCode)
    → s.cancelled ≡ true
    → s.deleted ≡ false
    → (perform (completion op ec) s).1.deleted ≡ is_aborted ec
unfolding perform cancel_check handle_connect handle_write handle_read_length handle_read_data
cancelled-completion s connect ec c d = ground arith
cancelled-completion s write ec c d = ground arith
cancelled-completion s read_length ec c d = ground arith
cancelled-completion s (read_data n) ec c d = ground arith

-- When the client deletes a socket, the object is deleted at once, or is cancelled: then it is deleted
-- by the completion of its pending operation if that was aborted, and by no other.
pub cancel-Frees : (s : TcpSocket) → Reachable s → s.released ≡ false → Frees (cancel s).1
unfolding cancel
cancel-Frees s r h = elim (Bool-cases s.is_open) [
  | inr e ↦ inl (ground arith)
  | inl e ↦ elim (Bool-cases s.completed) [
    | inl c ↦ inl (ground arith)
    | inr c ↦
        let v = Reachable-IsSafe s r in
        let t : TcpSocket = record s { cancelled = true; released = true } in
        let (op, next) = waiting s.pending (v.waits e c (v.held h).0) in
        let now : (cancel s).1 ≡ t = ground (arith, v.held h) in
        inr (op, rw now next, λ ec. rw now (cancelled-completion t op ec refl (v.held h).1))
  ]
]
