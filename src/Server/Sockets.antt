-- ===== src/Server/Sockets.antt =====
-- The sockets of src/common/vsftp_server.c: creating, accepting and closing them.
pub mod Closing
pub mod Errors
use vs_ftp.Common.{ℕ, ℤ, success, failure, is_zero, is_invalid, is_nonneg, false, if◌then◌else◌}
use vs_ftp.Os.{Call, Os}
use vs_ftp.Machine.{SockAddr, M, pure, ◌>>=◌, ◌>>◌, ◌⨾◌, gets, modify, invoke, htons}

-- What `CreatePassiveSocket` returns, with `*sock`.
pub record Created : Type 0 where
  pub retval : ℤ
  pub sock : ℤ

module _ {K : Type 0} ⦃os : Os K⦄ where
  -- The part of `CreatePassiveSocket` between `socket` and the clean-up.
  unfoldable pub prepare_socket : ℤ → SockAddr → M K ℤ
  prepare_socket sock addr =
      if is_invalid sock
      then pure failure
      else (invoke (Call.fcntl_getfl sock) >> invoke (Call.fcntl_setfl sock))
        ⨾ invoke (Call.set_reuse_port sock)
        ⨾ invoke (Call.bind sock addr.sin_port)
        ⨾ invoke (Call.listen sock)

  -- `CreatePassiveSocket`. After a failure `*sock` keeps the number of the closed socket.
  unfoldable pub create_passive_socket : SockAddr → M K Created
  unfolding prepare_socket
  create_passive_socket addr = do
    sock ← invoke Call.socket
    r ← prepare_socket sock addr
    let created : Created = record { retval = r; sock = sock }
    if is_zero r
        then pure created
        else invoke (Call.shutdown sock) >> invoke (Call.close sock) >> pure created

  -- `shutdown`, then `close` if that went well, on a descriptor that is not -1.
  unfoldable pub shut : ℤ → M K ℤ
  shut sock =
      if is_invalid sock
      then pure failure
      else invoke (Call.shutdown sock) ⨾ invoke (Call.close sock)

  -- `CloseClientSocket`
  unfoldable pub close_client_socket : M K ℤ
  unfolding shut
  close_client_socket = do
    sock ← gets (λ d. d.client_sock)
    r ← shut sock
    modify (λ d. record d { client_sock = failure })
    pure r

  -- `VSFTPServerCloseTransferSocket`
  unfoldable pub close_transfer_socket : M K ℤ
  unfolding shut
  close_transfer_socket = do
    sock ← gets (λ d. d.transfer_sock)
    r ← shut sock
    modify (λ d. record d { transfer_sock = failure })
    pure r

  -- `VSFTPServerCloseTransferClientSocket`
  unfoldable pub close_transfer_client_socket : M K ℤ
  unfolding shut
  close_transfer_client_socket = do
    sock ← gets (λ d. d.transfer_client_sock)
    r ← shut sock
    modify (λ d. record d { transfer_client_sock = failure })
    pure r

  -- `VSFTPServerCreateTransferSocket`
  unfoldable pub create_transfer_socket : ℕ → M K ℤ
  create_transfer_socket port_num = do
    sock ← gets (λ d. d.transfer_sock)
    if is_invalid sock
        then (do
          let addr : SockAddr = record { sin_port = htons port_num }
          modify (λ d. record d { transfer = addr })
          c ← create_passive_socket addr
          modify (λ d. record d { transfer_sock = c.sock })
          pure c.retval)
        else pure failure

  -- `VSFTPServerAcceptTransferClientConnection`
  unfoldable pub accept_transfer_client_connection : M K ℤ
  accept_transfer_client_connection = do
    sock ← gets (λ d. d.transfer_sock)
    if is_invalid sock then pure failure else (do
      lsock ← invoke (Call.accept sock)
      if is_nonneg lsock
          then modify (λ d. record d { transfer_client_sock = lsock }) >> pure success
          else pure failure)

  -- The server socket's part of `VSFTPServerStop`.
  unfoldable pub close_server_socket : M K (Unit {0})
  close_server_socket = do
    sock ← gets (λ d. d.server_sock)
    if is_invalid sock
        then pure tt
        else invoke (Call.shutdown sock)
          >> invoke (Call.close sock)
          >> modify (λ d. record d { server_sock = failure })

  -- `VSFTPServerStop`
  unfoldable pub stop : M K ℤ
  stop = do
    close_transfer_client_socket
    close_transfer_socket
    close_client_socket
    close_server_socket
    modify (λ d. record d { is_server_socket_created = false; is_connected = false })
    pure success

  -- `VSFTPServerClientDisconnect`
  unfoldable pub client_disconnect : M K ℤ
  client_disconnect = do
    close_transfer_client_socket
    close_transfer_socket
    close_client_socket
    modify (λ d. record d { is_connected = false })
    pure success
