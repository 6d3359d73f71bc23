-- ===== src/Conn.antt =====
-- The package service/conn: what the clients that are connected report.
pub mod Heartbeat
pub mod Clients
pub mod Sockets
