-- ===== src/Tests.antt =====
-- Sample inputs, and the theorems at them.
mod Samples
mod Repository
mod Dispatcher
mod Context
mod Asio
mod Main
mod Traffic
mod Program
mod Ending
mod Sockets
