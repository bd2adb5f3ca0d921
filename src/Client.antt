-- ===== src/Client.antt =====
-- client/snapper.cc: what the command line client reads from its arguments and prints.
pub mod Userdata
pub mod RoundTrip
mod Tests
