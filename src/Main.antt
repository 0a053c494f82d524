-- ===== src/Main.antt =====
-- src/bin/queryperfpp/queryperfpp.cc: the main program.
pub mod Options
pub mod Usage
pub mod Report
pub mod Prepare
pub mod Statistics
pub mod Prepared
pub mod Workers
pub mod Program
pub mod Threads
pub mod Reported
pub mod Preloading
pub mod Ending
pub mod Wire
