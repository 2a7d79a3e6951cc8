-- ===== src/Electron.antt =====
-- frontend/electron: the main process of the desktop client.
pub mod Supervisor
pub mod Sse
pub mod Dump
pub mod Dictation
pub mod Helper
pub mod Hotkey
pub mod Recording
pub mod RepoRoot
pub mod Overlay
pub mod Sounds
