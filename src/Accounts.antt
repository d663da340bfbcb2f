-- ===== src/Accounts.antt =====
-- Game accounts: backend/services/game_account_service.py, account_session_service.py and
-- event_reactor.py in the same folder, and the account steps of pipelines.
pub mod Account
pub mod Service
pub mod Sessions
pub mod Reactor
pub mod Steps
pub mod Invariant
pub mod Held
pub mod Release
pub mod Banned
pub mod Ban
pub mod Twice
pub mod Import
pub mod Stats
mod Tests
