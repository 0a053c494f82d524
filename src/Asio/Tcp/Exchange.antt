-- ===== src/Asio/Tcp/Exchange.antt =====
-- An exchange over a `TCPMessageSocket` of src/lib/asio_message_manager.cc: the length in front of a
-- message, and an answer of several messages.
use queryperfpp.Base.{
  ◌>>◌, ℕ, ◌+◌, ◌<◌, ◌≡◌, refl, ap, ◌∙◌, true, false, some, List, [], ◌∷◌, ◌++◌, length, arith,
  Text, Result, ok,
}
use queryperfpp.Asio.Types.{success, eof, failed, Event, data_event, null_event}
use queryperfpp.Asio.Tcp.{
  Operation, read_length, read_data, TcpSocket, TcpStep, client_send, connected, written,
  length_read, data_read, new_tcp, perform, perform_all, send_query_over, cancel_check,
  send_callback, handle_connect, handle_write, handle_read_length, handle_read_data, start_message,
  keep_first, decode_length, encode_length,
}

-- The two bytes that are sent for a length are read as that length.
pub decode_length-encode_length : (n : ℕ) → n < 65536 → decode_length (encode_length n) ≡ some n
unfolding decode_length encode_length
decode_length-encode_length n h = ap some (omega arith)

-- How asio completes the reading of messages, each in two pieces, and what comes behind them.
abbrev pub reads : List Text → List TcpStep → List TcpStep
reads [] last = last
reads (m ∷ ms) last =
    length_read success (encode_length (length m)) ∷ data_read success m ∷ reads ms last

-- Each message has a length of 16 bits.
abbrev pub Small : List Text → Type 0
Small [] = Unit
Small (m ∷ ms) = (length m < 65536) × Small ms

-- A socket that waits for a length, behind a first message that was not empty.
abbrev reading : Text → Text → ℕ → TcpSocket
reading query first aux = record new_tcp {
  is_open = true;
  sendbufs = encode_length (length query) ++ query;
  recvbuf = first;
  recvdata_len = length first;
  aux_arrays = aux;
  pending = read_length ∷ [];
}

-- A step that returns is gone on from.
perform_all-step :
    (e : TcpStep) (es : List TcpStep) (s t : TcpSocket)
    → perform e s ≡ (ok tt, t)
    → perform_all (e ∷ es) s ≡ perform_all es t
unfolding perform_all
perform_all-step e es s t h =
    ap (λ (p : Result (Unit {0}) × TcpSocket). ◌>>◌ (λ (_ : TcpSocket). p) (perform_all es) s) h

-- The end of a connection: one event, and the arrays that were allocated.
pub record Ends (event : Event) (arrays : ℕ) (result : Result (Unit {0}) × TcpSocket) : Type 0 where
  pub returned : result.0 ≡ ok tt
  pub events : result.1.events ≡ event ∷ []
  pub allocated : result.1.aux_arrays ≡ arrays

module _ (query first : Text) where
  -- The steps that read a length and a message, behind the first message or as the first.
  length-step :
      (code : Text) (n aux : ℕ)
      → decode_length code ≡ some n
      → 0 < length first
      → perform (length_read success code) (reading query first aux)
        ≡ (ok tt, record (reading query first (aux + 1)) { pending = read_data n ∷ [] })
  unfolding perform handle_read_length cancel_check start_message new_tcp
  length-step code n aux e filled = rw e (ground arith)

  first_length-step :
      (code : Text) (n : ℕ)
      → decode_length code ≡ some n
      → perform (length_read success code) (reading query [] 0)
        ≡ (ok tt, record (reading query [] 0) { pending = read_data n ∷ [] })
  unfolding perform handle_read_length cancel_check start_message new_tcp
  first_length-step code n e = rw e (ground arith)

  data-step :
      (m : Text) (aux : ℕ) (op : Operation)
      → 0 < length first
      → perform (data_read success m) (record (reading query first aux) { pending = op ∷ [] })
        ≡ (ok tt, reading query first aux)
  unfolding perform handle_read_data cancel_check keep_first new_tcp
  data-step m aux op filled = ground arith

  first_data-step :
      (op : Operation)
      → perform (data_read success first) (record (reading query [] 0) { pending = op ∷ [] })
        ≡ (ok tt, reading query first 0)
  unfolding perform handle_read_data cancel_check keep_first new_tcp
  first_data-step op = ground arith

  -- Messages behind the first are read and dropped, with an array allocated for each.
  reads-reading :
      (ms : List Text) (aux : ℕ) (last : List TcpStep)
      → 0 < length first
      → Small ms
      → perform_all (reads ms last) (reading query first aux)
        ≡ perform_all last (reading query first (aux + length ms))
  reads-reading [] aux last filled small =
      ap (λ n. perform_all last (reading query first n)) (omega arith)
  reads-reading (m ∷ ms) aux last filled small =
      perform_all-step _ _ _ _ (
        length-step (encode_length (length m)) (length m) aux
          (decode_length-encode_length (length m) small.0) filled)
      ∙ perform_all-step _ _ _ _ (data-step m (aux + 1) (read_data (length m)) filled)
      ∙ reads-reading ms (aux + 1) last filled small.1
      ∙ ap (λ n. perform_all last (reading query first n)) (omega arith)

  -- From the client's `send` to the length of the first message.
  opening :
      (es : List TcpStep)
      → perform_all (client_send query ∷ connected success ∷ written success false ∷ es) new_tcp
        ≡ perform_all es (reading query [] 0)
  unfolding perform_all perform send_query_over handle_connect handle_write cancel_check new_tcp
  opening es = refl

  -- A whole connection, up to what comes behind the messages.
  abbrev pub connection : List Text → List TcpStep → List TcpStep
  connection ms last =
      client_send query ∷ connected success ∷ written success false ∷ reads (first ∷ ms) last

  connection-reading :
      (ms : List Text) (last : List TcpStep)
      → 0 < length first
      → Small (first ∷ ms)
      → perform_all (connection ms last) new_tcp
        ≡ perform_all last (reading query first (length ms))
  connection-reading ms last filled small =
      opening (reads (first ∷ ms) last)
      ∙ perform_all-step _ _ _ _ (
          first_length-step (encode_length (length first)) (length first)
            (decode_length-encode_length (length first) small.0))
      ∙ perform_all-step _ _ _ _ (first_data-step (read_data (length first)))
      ∙ reads-reading ms 0 last filled small.1
      ∙ ap (λ n. perform_all last (reading query first n)) (omega arith)

  end-Ends :
      (aux : ℕ)
      → Ends
          (data_event first (length first))
          aux
          (perform_all (length_read eof [] ∷ []) (reading query first aux))
  unfolding perform_all perform handle_read_length cancel_check send_callback new_tcp
  end-Ends aux = record { returned = refl; events = refl; allocated = refl }

  -- A server that answers with a first message that is not empty and any further ones, each shorter
  -- than 65536 bytes, and closes the connection between two messages: the callback is made once, with
  -- the first message. One array is allocated for each further message.
  pub perform_all-answer :
      (ms : List Text)
      → 0 < length first
      → Small (first ∷ ms)
      → Ends
          (data_event first (length first))
          (length ms)
          (perform_all (connection ms (length_read eof [] ∷ [])) new_tcp)
  perform_all-answer ms filled small =
      rw (connection-reading ms (length_read eof [] ∷ []) filled small) (end-Ends (length ms))

  null-Ends :
      (n aux : ℕ)
      → Ends (null_event (length first)) aux (
          perform_all
            (data_read failed [] ∷ [])
            (record (reading query first aux) { pending = read_data n ∷ [] }))
  unfolding perform_all perform handle_read_data cancel_check send_callback new_tcp
  null-Ends n aux = record { returned = refl; events = refl; allocated = refl }

  reset-Ends :
      (code : Text) (n aux : ℕ)
      → decode_length code ≡ some n
      → 0 < length first
      → Ends (null_event (length first)) (aux + 1) (
          perform_all
            (length_read success code ∷ data_read failed [] ∷ [])
            (reading query first aux))
  reset-Ends code n aux e filled =
      rw (perform_all-step _ (data_read failed [] ∷ []) _ _ (length-step code n aux e filled))
        (null-Ends n (aux + 1))

  -- If the connection fails while a further message is read, the callback gets the length of the first
  -- message, which is not 0, with a null pointer.
  pub perform_all-reset :
      (ms : List Text) (n : ℕ)
      → 0 < length first
      → Small (first ∷ ms)
      → n < 65536
      → Ends (null_event (length first)) (length ms + 1) (
          perform_all
            (connection ms (length_read success (encode_length n) ∷ data_read failed [] ∷ []))
            new_tcp)
  perform_all-reset ms n filled small h =
      rw (connection-reading ms _ filled small)
        (reset-Ends (encode_length n) n (length ms) (decode_length-encode_length n h) filled)
