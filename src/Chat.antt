-- ===== src/Chat.antt =====
-- app/services/chat.py
pub mod Session
pub mod Statements
pub mod Common
pub mod Valid
pub mod Lookup
pub mod Rely
pub mod Keeps
pub mod Send
pub mod Receipts
pub mod Listing
pub mod Inbox
pub mod Fixture
