-- ===== src/Server.antt =====
-- src/common/vsftp_server.c: the sockets, the replies, the paths and the file transfer. The loop of
-- the server, which calls the commands, is in `Loop`, beside `Commands`.
pub mod Sockets
pub mod Reply
pub mod Keeps
pub mod Paths
pub mod Transfer
pub mod Invariant
