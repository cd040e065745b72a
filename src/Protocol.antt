-- ===== src/Protocol.antt =====
-- The wire protocol: src/module/icsprotocol.hpp and icsprotocol.cpp.
pub mod MessageId
pub mod Errors
pub mod Head
pub mod Stream
mod Tests
