-- ===== src/Asio.antt =====
-- src/lib/asio_message_manager.cc: the sockets and timers of the message manager over asio.
pub mod Types
pub mod Udp
pub mod Tcp
pub mod Timer
pub mod Manager
