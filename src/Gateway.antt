-- ===== src/Gateway.antt =====
-- src/os_layer/ipc/src/socket_request.cpp and domain_socket.cpp: the dashboard's requests over a
-- local socket.
pub mod Json
pub mod Rows
pub mod Request
pub mod Response
pub mod Frame
pub mod Handlers
pub mod Server
mod Tests
