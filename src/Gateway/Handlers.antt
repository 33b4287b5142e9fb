-- ===== src/Gateway/Handlers.antt =====
-- The handlers of src/os_layer/ipc/src/domain_socket.cpp, one for each command.
mod Replies
mod Agents
mod Cases
unfoldable pub use Replies.*
unfoldable pub use Agents.*
unfoldable pub use Cases.*
