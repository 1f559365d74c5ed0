-- ===== src/Commands/Handlers/Files.antt =====
-- The handlers of RETR and SIZE in src/common/vsftp_commands.c.
use vs_ftp.Common.{
  not, ℤ, failure, is_zero, Bool, true, false, Option, none, some, [], ◌∷◌, ◌==◌, if◌then◌else◌,
  length,
}
use vs_ftp.Libc.{Bytes, codes, c_str}
use vs_ftp.Libc.Format.{str, num, long_long}
use vs_ftp.Os.{Call, Os}
use vs_ftp.Machine.{M, pure, ◌>>=◌, ◌>>◌, ◌⨾◌, perform}
use vs_ftp.Filesystem.{is_file}
use vs_ftp.Server.Sockets.{
  accept_transfer_client_connection, close_transfer_socket, close_transfer_client_socket,
}
use vs_ftp.Server.Reply.{send_reply}
use vs_ftp.Server.Paths.{server_path_to_real_path}
use vs_ftp.Server.Transfer.{get_transfer_mode, send_file_transfer}

-- How the part of a handler that looks for a file ends: its `retval`, `isFileError`, the path.
pub record Located : Type 0 where
  pub retval : ℤ
  pub is_file_error : Bool
  pub real_path : Bytes

abbrev pub local_error : Bytes
local_error = codes "451 Requested action aborted: Local error in processing."

module _ {K : Type 0} ⦃os : Os K⦄ where
  -- Whether the path found is a file.
  unfoldable pub located : Option Bytes → M K Located
  located none = pure (record { retval = failure; is_file_error = true; real_path = [] })
  located (some path) = do
    r ← is_file path
    pure (record { retval = r; is_file_error = not (is_zero r); real_path = path })

  -- The first part of `CommandHandlerRetr` and of `CommandHandlerSize`: the argument as a file.
  unfoldable pub locate : Bytes → M K Located
  unfolding located
  locate args =
      if length args == 0
      then pure (record { retval = failure; is_file_error = false; real_path = [] })
      else server_path_to_real_path args >>= located

  -- The reply in front of a transfer.
  unfoldable pub retr_mode : Bytes → M K ℤ
  retr_mode args = do
    is_binary ← get_transfer_mode
    if is_binary
        then send_reply (codes "150 BINARY mode data connection for %s.") (str args ∷ [])
        else send_reply (codes "150 ASCII mode data connection for %s.") (str args ∷ [])

  -- The part of `CommandHandlerRetr` that transfers the file.
  unfoldable pub retr_transfer : Bytes → Located → M K ℤ
  unfolding retr_mode
  retr_transfer args file =
      pure file.retval
      ⨾ accept_transfer_client_connection
      ⨾ retr_mode args
      ⨾ send_file_transfer file.real_path

  -- `CommandHandlerRetr`
  unfoldable pub command_retr : Bytes → M K ℤ
  unfolding locate retr_transfer
  command_retr args = do
    file ← locate args
    r ← retr_transfer args file
    close_transfer_client_socket
    close_transfer_socket
    if is_zero r
        then send_reply (codes "226 Transfer Complete.") []
        else send_reply (if file.is_file_error then codes "551 File not found." else local_error) []

  -- What `CommandHandlerSize` replies for a file.
  unfoldable pub size_reply : Bytes → M K ℤ
  size_reply real_path = do
    a ← perform (Call.stat (c_str real_path))
    if is_zero a.ret
        then send_reply (codes "213 %llu") (num long_long a.size ∷ [])
        else send_reply local_error []

  -- `CommandHandlerSize`
  unfoldable pub command_size : Bytes → M K ℤ
  unfolding locate size_reply
  command_size args = do
    file ← locate args
    if is_zero file.retval
        then size_reply file.real_path
        else send_reply (if file.is_file_error then codes "550 File not found." else local_error) []
