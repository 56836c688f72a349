-- ===== src/A2aClient.antt =====
-- daemon/src/A2AClient.cpp, daemon/include/kitty_a2a/A2AClient.hpp: the client of the A2A protocol. The
-- transports and the JSON library are parameters.
pub mod Parse
pub mod Response
pub mod Stream
pub mod Subscribe
pub mod Call
pub mod Operations
pub mod Discover
pub mod Probe
mod Tests
