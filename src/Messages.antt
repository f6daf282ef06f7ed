-- ===== src/Messages.antt =====
-- The message server of Client-Server-TCP-UDP/: helpers.cpp, server.cpp and subscriber.cpp.
pub mod Topics
pub mod Command
pub mod Datagram
pub mod Server
pub mod Subscriber
pub mod Session
pub mod Memory
