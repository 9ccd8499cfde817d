-- ===== src/Server.antt =====
-- server/Server.h and server/Server.cpp. The parts are in the modules below.
pub mod State
pub mod Transfer
pub mod Login
pub mod Incoming
pub mod Outbound
pub mod Run
pub mod Listening
pub mod Process
