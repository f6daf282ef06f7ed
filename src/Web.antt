-- ===== src/Web.antt =====
-- The web client, Client-Web-RestAPI.
pub mod Buffer
pub mod Receive
pub mod Http
pub mod Send
pub mod Client
pub mod Exchange
