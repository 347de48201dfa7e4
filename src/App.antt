-- ===== src/App.antt =====
-- The program around the filesystem: the commands, their configuration, and the helpers of the launcher.
pub mod Systemd
pub mod Home
pub mod Config
pub mod Volume
pub mod Command
pub mod Launcher
