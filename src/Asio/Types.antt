-- ===== src/Asio/Types.antt =====
-- The data that the classes of src/lib/asio_message_manager.cc share.
use queryperfpp.Base.{ℕ, Bool, true, false, Option, none, some, Text}

-- `error_code`: success, the two values that the handlers know, and any other.
pub data ErrorCode : Type 0 where
  success eof aborted failed : ErrorCode

-- `if (ec)`
abbrev pub is_set : ErrorCode → Bool
is_set success = false
is_set eof = true
is_set aborted = true
is_set failed = true

abbrev pub is_eof : ErrorCode → Bool
is_eof eof = true
is_eof _ = false

abbrev pub is_aborted : ErrorCode → Bool
is_aborted aborted = true
is_aborted _ = false

-- `MessageSocket::Event`. Its data are `none` for NULL.
pub record Event : Type 0 where
  pub bytes : Option Text
  pub datalen : ℕ

-- An event with nothing.
abbrev pub null_event : ℕ → Event
null_event n = record { bytes = none; datalen = n }

abbrev pub data_event : Text → ℕ → Event
data_event bytes n = record { bytes = some bytes; datalen = n }
