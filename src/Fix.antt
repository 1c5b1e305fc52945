-- ===== src/Fix.antt =====
-- exchangesim/fix: the FIX protocol, its messages, its stores and its sessions.
pub mod Message
pub mod Store
pub mod FileStore
pub mod MsgType
pub mod Tag
pub mod Session
pub mod Wire
