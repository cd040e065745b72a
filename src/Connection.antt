-- ===== src/Connection.antt =====
-- src/module/icsconnection.hpp: `IcsConnection`.
pub mod Receive
pub mod Send
mod Tests
