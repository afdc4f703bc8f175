-- ===== src/TcpServer.antt =====
-- The server and the client of src/net/tcp_server.rs.
mod Defs
mod Laws
mod Client
mod Tests
