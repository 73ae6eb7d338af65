-- ===== src/Via/Protocol.antt =====
-- rumcake/src/via/protocol_12/mod.rs and rumcake/src/via/mod.rs: the state of the protocol, what a
-- command reads and changes, and the commands.
pub mod Commands
pub mod Values
pub mod State
pub mod Channels
pub mod Dispatch
pub mod Refused
pub mod Replies
pub mod Echoes
pub mod Sessions
pub mod Matrix
