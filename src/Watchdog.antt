-- ===== src/Watchdog.antt =====
-- The watchdog, `backend/src/watchdog`: what it looks for, and how it acts on what it finds.
pub mod Detection
pub mod Scan
