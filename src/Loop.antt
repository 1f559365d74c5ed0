-- ===== src/Loop.antt =====
-- The life of the server in src/common/vsftp_server.c: initialising and starting it, waiting for a
-- client, handling a request, and `VSFTPServerHandler`, which does the next of these.
pub mod Keeps
pub mod Answers
pub mod Arrival
pub mod Request
pub mod Fragments
pub mod Session
pub mod Phases
pub mod Errors
pub mod Invariant
use vs_ftp.Common.{
  Option, ℕ, ◌-◌, ℤ, success, failure, is_zero, is_nonneg, Bool, true, none, some, [], ltb, ◌==◌,
  ◌&&◌, ◌||◌, if◌then◌else◌, length, take, drop,
}
use vs_ftp.Libc.{Bytes, codes, crlf, strncmp_eq, strncpy}
use vs_ftp.Os.{Call, Os}
use vs_ftp.Machine.{
  M, SockAddr, write_out_of_bounds, pure, ◌>>=◌, ◌>>◌, ◌⨾◌, gets, modify, get_errno, fault, invoke,
  htons,
}
pub use vs_ftp.Machine.{request_len_max}
use vs_ftp.Filesystem.{path_len_max, is_dir, get_real_path}
use vs_ftp.Server.Sockets.{
  create_passive_socket, close_transfer_socket, close_transfer_client_socket, client_disconnect,
  stop,
}
use vs_ftp.Server.Reply.{send_reply}
use vs_ftp.Server.Paths.{set_cwd}
use vs_ftp.Server.Transfer.{inet_addrstrlen, receive_own_sock}
use vs_ftp.Commands.{commands_parse}

-- `errno == EWOULDBLOCK || errno == EAGAIN`, which are one number on Linux.
abbrev pub would_block : ℕ → Bool
would_block e = e == 11

module _ {K : Type 0} ⦃os : Os K⦄ where
  -- The end of `VSFTPServerInitialize`, on the root path that was found.
  unfoldable pub configure_root : Option Bytes → M K ℤ
  configure_root none = pure failure
  configure_root (some path) = do
    modify (λ d. record d { root_path = path; root_path_len = length path })
    is_dir path

  -- `VSFTPServerInitialize`
  unfoldable pub initialize : Bytes → Bytes → ℕ → M K ℤ
  unfolding configure_root
  initialize root_path ip_addr port =
      if length root_path == 0 || length ip_addr == 0 then pure failure else (do
        modify (λ d. record d {
          ip_addr = strncpy ip_addr inet_addrstrlen;
          ip_addr_len = length ip_addr;
          port = port;
        })
        get_real_path [] root_path path_len_max >>= configure_root)

  -- The end of `VSFTPServerStart`.
  unfoldable pub mark_created : ℤ → M K ℤ
  mark_created r =
      if is_zero r
      then modify (λ d. record d { is_server_socket_created = true }) >> pure r
      else pure r

  -- The part of `VSFTPServerStart` behind `VSFTPServerSetCwd`.
  unfoldable pub open_server_socket : M K ℤ
  unfolding mark_created
  open_server_socket = do
    port ← gets (λ d. d.port)
    let addr : SockAddr = record { sin_port = htons port }
    modify (λ d. record d { transfer_mode_binary = true; server = addr })
    c ← create_passive_socket addr
    modify (λ d. record d { server_sock = c.sock })
    mark_created c.retval

  -- `VSFTPServerStart`. `transferClientSock` is not among the members that it sets.
  unfoldable pub start : M K ℤ
  unfolding open_server_socket
  start = do
    modify (λ d. record d { transfer_sock = failure; server_sock = failure; client_sock = failure })
    root ← gets (λ d. d.root_path)
    set_cwd root ⨾ open_server_socket

  -- What `WaitForIncomingConnection` does for a new client.
  unfoldable pub welcome : M K ℤ
  welcome = do
    root ← gets (λ d. d.root_path)
    set_cwd root
        ⨾ send_reply (codes "220 Service ready for new user.") []
        ⨾ (modify (λ d. record d { is_connected = true }) >> pure success)

  -- What both loops do after a failure, unless there was nothing to wait for.
  unfoldable pub stop_unless_blocked : M K (Unit {0})
  stop_unless_blocked = do e ← get_errno; if would_block e then pure tt else stop >> pure tt

  -- `WaitForIncomingConnection`
  unfoldable pub wait_for_incoming_connection : M K ℤ
  unfolding welcome stop_unless_blocked
  wait_for_incoming_connection = do
    sock ← gets (λ d. d.server_sock)
    client ← invoke (Call.accept sock)
    modify (λ d. record d { client_sock = client })
    if is_nonneg client then welcome else stop_unless_blocked >> pure success

  -- `buffer[bytes_read] = '\0'`, where the array ends at `REQUEST_LEN_MAX`.
  unfoldable pub terminate_buffer : ℕ → M K (Unit {0})
  terminate_buffer n =
      if ltb n request_len_max then pure tt else fault (write_out_of_bounds request_len_max)

  -- A complete request, without its line end.
  unfoldable pub handle_request : Bytes → M K ℤ
  handle_request buffer = do
    r ← commands_parse buffer
    if is_zero r
        then pure r
        else close_transfer_client_socket >> close_transfer_socket >> pure success

  -- The branches of `HandleConnection` on what was received.
  unfoldable pub handle_bytes : Bytes → M K ℤ
  unfolding handle_request stop_unless_blocked
  handle_bytes buffer =
      if ltb 2 (length buffer) && strncmp_eq (drop (length buffer - 2) buffer) crlf 2
      then handle_request (take (length buffer - 2) buffer)
      else if length buffer == 0
      then client_disconnect >> pure success
      else stop_unless_blocked >> pure success

  -- `HandleConnection` behind `ReceiveOwnSock`.
  unfoldable pub handle_received : Option Bytes → M K ℤ
  unfolding terminate_buffer handle_bytes
  handle_received none = terminate_buffer 0 >> stop_unless_blocked >> pure failure
  handle_received (some buffer) = terminate_buffer (length buffer) >> handle_bytes buffer

  -- `HandleConnection`
  unfoldable pub handle_connection : M K ℤ
  unfolding handle_received
  handle_connection = do
    sock ← gets (λ d. d.client_sock)
    received ← receive_own_sock sock request_len_max
    handle_received received

  -- `VSFTPServerHandler`
  unfoldable pub handler : M K ℤ
  handler = do
    d ← gets (λ d. d)
    if d.is_server_socket_created
        then if d.is_connected then handle_connection else wait_for_incoming_connection
        else start
