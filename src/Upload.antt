-- ===== src/Upload.antt =====
-- Uploads: one transfer (fs/upload_session.go) and the manager of all of them (fs/upload_manager.go).
pub mod Session
pub mod Transfer
pub mod Manager
