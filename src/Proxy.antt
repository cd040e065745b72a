-- ===== src/Proxy.antt =====
-- The proxy server: src/proxy/icsproxyserver.hpp and icsproxyserver.cpp.
pub mod World
pub mod Monad
pub mod Centers
pub mod Fixed
pub mod Registry
pub mod Terminal
pub mod Center
pub mod Server
mod Tests
