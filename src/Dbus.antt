-- ===== src/Dbus.antt =====
-- dbus/: how the daemon and its clients put strings on the bus.
pub mod Escape
