-- ===== src/Center.antt =====
-- The center server: src/center/icslocalserver.hpp and icslocalserver.cpp.
pub mod World
pub mod Monad
pub mod Frame
pub mod Registry
pub mod Routing
pub mod RemoteProxy
pub mod Web
pub mod Push
pub mod Terminal
pub mod Messages
pub mod Server
pub mod Tests
