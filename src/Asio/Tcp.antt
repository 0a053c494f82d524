-- ===== src/Asio/Tcp.antt =====
-- `TCPMessageSocket` of src/lib/asio_message_manager.cc: one query and its answer over a connection.
pub mod Lifetime
pub mod Exchange
pub mod Released
pub mod Client
pub mod Course
use queryperfpp.Base.{
  ℕ, ◌+◌, ◌*◌, ◌/◌, ◌%◌, Bool, true, false, not, ◌&&◌, Option, none, some, List, [], ◌∷◌, ◌++◌,
  length, ltb, ◌==◌, if◌then◌else◌, Text, assertion, unexpected_length, ok, err, Action, ◌>>◌,
}
use queryperfpp.Asio.Types.{ErrorCode, is_set, is_eof, is_aborted, Event, null_event, data_event}

-- An asynchronous operation that asio has not completed; `read_data` has the size of its buffer.
pub data Operation : Type 0 where
  connect write read_length : Operation
  read_data : ℕ → Operation

-- `aux_arrays` counts the arrays allocated for `aux_recvbuf_`. `released` is set by the destructor of
-- the `ASIOMessageSocket`, and `deleted` by `delete this`. `events` are those given to the callback,
-- newest first.
pub record TcpSocket : Type 0 where
  pub is_open : Bool
  pub sendbufs : Text
  pub recvbuf : Text
  pub recvdata_len : ℕ
  pub aux_arrays : ℕ
  pub cancelled : Bool
  pub completed : Bool
  pub pending : List Operation
  pub events : List Event
  pub released : Bool
  pub deleted : Bool

-- The constructor.
unfoldable pub new_tcp : TcpSocket
new_tcp = record {
  is_open = false;
  sendbufs = [];
  recvbuf = [];
  recvdata_len = 0;
  aux_arrays = 0;
  cancelled = false;
  completed = false;
  pending = [];
  events = [];
  released = false;
  deleted = false;
}

-- The two bytes of the length, in `uint8_t`s.
unfoldable pub encode_length : ℕ → Text
encode_length datalen = (datalen / 256) % 256 ∷ datalen % 256 ∷ []

-- `msglen`, in a `uint16_t`; `none` if there are not two bytes.
unfoldable pub decode_length : Text → Option ℕ
decode_length (hi ∷ lo ∷ []) = some ((hi * 256 + lo) % 65536)
decode_length _ = none

abbrev pub await : Operation → TcpSocket → TcpSocket
await op s = record s { pending = op ∷ s.pending }

-- `send`. `async_connect` is taken to open the socket: asio opens a closed one there, and that this can
-- fail is left out.
unfoldable pub send_query_over : Text → TcpSocket → TcpSocket
unfolding encode_length
send_query_over bytes s =
    await connect (record s { is_open = true; sendbufs = encode_length (length bytes) ++ bytes })

-- `cancel`, from the destructor of the `ASIOMessageSocket`.
unfoldable pub cancel : Action TcpSocket (Unit {0})
cancel s =
    if s.is_open && not s.completed
    then if s.cancelled
      then (err assertion, record s { released = true })
      else (ok tt, record s { cancelled = true; released = true })
    else (ok tt, record s { deleted = true; released = true })

-- `sendCallback`. What the client does in the callback is a step of its own: every handler returns
-- right behind it.
unfoldable pub send_callback : Event → Action TcpSocket (Unit {0})
send_callback ev s = (ok tt, record s { completed = true; events = ev ∷ s.events })

-- `cancelCheck`, and the handler behind it.
unfoldable pub cancel_check : ErrorCode → Action TcpSocket (Unit {0}) → Action TcpSocket (Unit {0})
cancel_check ec handler s =
    if s.cancelled
    then (ok tt, if is_aborted ec then record s { deleted = true } else s)
    else handler s

unfoldable pub handle_connect : ErrorCode → Action TcpSocket (Unit {0})
unfolding cancel_check send_callback
handle_connect ec =
    cancel_check ec
      λ s. if is_set ec then send_callback (null_event 0) s else (ok tt, await write s)

-- `handleWrite`; `shut` is whether `shutdown` failed.
unfoldable pub handle_write : ErrorCode → Bool → Action TcpSocket (Unit {0})
unfolding cancel_check send_callback
handle_write ec shut = cancel_check ec λ s.
    if is_set ec
    then send_callback (null_event 0) s
    else if shut
    then send_callback (null_event 0) s
    else (ok tt, await read_length s)

-- The last part of `handleReadLength`: the buffer for the message, and its reading.
unfoldable pub start_message : Option ℕ → Action TcpSocket (Unit {0})
start_message none s = (err unexpected_length, s)
start_message (some msglen) s =
    let aux = if ltb 0 s.recvdata_len then s.aux_arrays + 1 else s.aux_arrays in
    (ok tt, await (read_data msglen) (record s { aux_arrays = aux }))

unfoldable pub handle_read_length : ErrorCode → Text → Action TcpSocket (Unit {0})
unfolding cancel_check send_callback start_message decode_length
handle_read_length ec bytes = cancel_check ec λ s.
    if is_eof ec
    then send_callback (data_event s.recvbuf s.recvdata_len) s
    else if is_set ec
    then send_callback (null_event 0) s
    else start_message (decode_length bytes) s

-- The first message stays in the buffer of the caller; later ones go to the auxiliary one.
unfoldable pub keep_first : Text → TcpSocket → TcpSocket
keep_first bytes s =
    if s.recvdata_len == 0 then record s { recvbuf = bytes; recvdata_len = length bytes } else s

unfoldable pub handle_read_data : ErrorCode → Text → Action TcpSocket (Unit {0})
unfolding cancel_check send_callback keep_first
handle_read_data ec bytes = cancel_check ec λ s.
    if is_eof ec
    then send_callback (data_event s.recvbuf s.recvdata_len) s
    else if is_set ec
    then send_callback (null_event s.recvdata_len) s
    else (ok tt, await read_length (keep_first bytes s))

-- What happens to a socket: the calls of its client, and the completions of asio, with the bytes
-- read.
pub data TcpStep : Type 0 where
  client_send : Text → TcpStep
  client_delete : TcpStep
  connected : ErrorCode → TcpStep
  written : ErrorCode → Bool → TcpStep
  length_read : ErrorCode → Text → TcpStep
  data_read : ErrorCode → Text → TcpStep

-- asio takes the operation off before it calls the handler.
abbrev pub later : List Operation → List Operation
later [] = []
later (op ∷ ops) = ops

abbrev pub finish : TcpSocket → TcpSocket
finish s = record s { pending = later s.pending }

unfoldable pub perform : TcpStep → Action TcpSocket (Unit {0})
unfolding send_query_over cancel handle_connect handle_write handle_read_length handle_read_data
perform (client_send bytes) s = (ok tt, send_query_over bytes s)
perform client_delete s = cancel s
perform (connected ec) s = handle_connect ec (finish s)
perform (written ec shut) s = handle_write ec shut (finish s)
perform (length_read ec bytes) s = handle_read_length ec bytes (finish s)
perform (data_read ec bytes) s = handle_read_data ec bytes (finish s)

-- A sequence of steps; an exception leaves the event loop.
unfoldable pub perform_all : List TcpStep → Action TcpSocket (Unit {0})
perform_all [] s = (ok tt, s)
perform_all (e ∷ es) s = (perform e >> perform_all es) s
