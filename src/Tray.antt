-- ===== src/Tray.antt =====
-- internal/tray: the manager of tunnels and the lines that ask for one.
pub mod Manager
pub mod Spec
