-- ===== src/Store.antt =====
-- frontend/src/store: the renderer's state, one module for each slice.
pub mod Ask
pub mod Backups
pub mod Dictation
pub mod Feed
pub mod Prompts
pub mod Jobs
pub mod Hotkeys
pub mod AudioDevices
pub mod Health
pub mod Models
pub mod Rag
pub mod Monitoring
pub mod Sync
pub mod Profiles
pub mod Recordings
pub mod Settings
pub mod Notes
pub mod Obsidian
pub mod ObsidianWizard
pub mod Onboarding
pub mod Routines
pub mod Ui
pub mod WebSearch
