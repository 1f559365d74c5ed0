-- ===== src/Commands/Handlers/Folders.antt =====
-- The handlers of NLST, PWD and CWD in src/common/vsftp_commands.c.
use vs_ftp.Common.{
  ℕ, zero, suc, ◌+◌, ℤ, failure, is_zero, Bool, true, false, Option, none, some, [], ◌∷◌, ltb, ◌==◌,
  ◌&&◌, ◌||◌, if◌then◌else◌, length,
}
use vs_ftp.Libc.{Bytes, codes, c_str}
use vs_ftp.Libc.Format.{str}
use vs_ftp.Os.{Os}
use vs_ftp.Machine.{M, pure, ◌>>=◌, ◌>>◌, ◌⨾◌, gets, fault, read_out_of_bounds}
use vs_ftp.Filesystem.{path_len_max, is_dir, list_dir_per_line}
use vs_ftp.Server.Sockets.{
  accept_transfer_client_connection, close_transfer_socket, close_transfer_client_socket,
}
use vs_ftp.Server.Reply.{send_reply, send_reply_own_buf_transfer}
use vs_ftp.Server.Paths.{
  abs_path_is_not_above_root_path, reads_behind, real_path_to_server_path, server_path_to_real_path,
  get_cwd, set_cwd,
}

module _ {K : Type 0} ⦃os : Os K⦄ where
  -- The checks on the directory that the argument of `CommandHandlerNlst` names.
  unfoldable pub checked_dir : Option Bytes → M K (Option Bytes)
  checked_dir none = pure none
  checked_dir (some path) = do
    r ← is_dir path
    above ← gets (λ d. abs_path_is_not_above_root_path d path)
    pure (if is_zero r && is_zero above then some path else none)

  -- The working directory as `CommandHandlerNlst` gets it, replaced by the argument if there is one.
  unfoldable pub nlst_dir : Bytes → Option Bytes → M K (Option Bytes)
  unfolding checked_dir
  nlst_dir args none = pure none
  nlst_dir args (some dir) =
      if length args == 0 then pure (some dir) else server_path_to_real_path args >>= checked_dir

  -- The directory that `CommandHandlerNlst` lists.
  unfoldable pub nlst_path : Bytes → M K (Option Bytes)
  unfolding nlst_dir
  nlst_path args = get_cwd path_len_max >>= nlst_dir args

  -- The line behind the conversion to a path of the server.
  unfoldable pub nlst_server_line : Option Bytes → M K ℤ
  nlst_server_line none = pure failure
  nlst_server_line (some line) = send_reply_own_buf_transfer line path_len_max

  -- What `CommandHandlerNlst` sends for the line in `buf`. The whole array is given to the conversion,
  -- also where nothing has been stored in it yet, which an empty `buf` stands for.
  unfoldable pub nlst_line : Bool → Bytes → M K ℤ
  unfolding nlst_server_line
  nlst_line false buf = send_reply_own_buf_transfer buf path_len_max
  nlst_line true buf = do
    root ← gets (λ d. d.root_path)
    if length buf == 0 || reads_behind root buf 0 path_len_max
        then fault (read_out_of_bounds path_len_max)
        else pure tt
    gets (λ d. real_path_to_server_path d buf path_len_max) >>= nlst_server_line

  -- `do … while (d != NULL)`, on fuel for the rounds; the last two arguments are `buf` and `d`.
  unfoldable pub nlst_loop : ℕ → Bytes → Bool → Bytes → Option ℕ → M K ℤ
  unfolding nlst_line
  nlst_loop zero path prepend_dir buf d s = (failure, s)
  nlst_loop (suc f) path prepend_dir buf d s =
      let (l, s') = list_dir_per_line path buf path_len_max prepend_dir d s in
      let (r, s'') = nlst_line prepend_dir l.buf s' in
      let more = nlst_loop f path prepend_dir l.buf l.cookie s'' in
      if is_zero l.retval
      then if is_zero r then elim l.cookie [ none ↦ (r, s'') | some _ ↦ more ] else (r, s'')
      else (l.retval, s')

  -- The whole loop. It gets a round for each entry of the directory, and two more.
  unfoldable pub nlst_all : Bytes → Bool → M K ℤ
  unfolding nlst_loop
  nlst_all path prepend_dir s =
      nlst_loop (os.entries (c_str path) s.kernel + 2) path prepend_dir [] none s

  -- What `CommandHandlerNlst` does once it knows the directory.
  unfoldable pub nlst_send : Bytes → Bool → M K ℤ
  unfolding nlst_all
  nlst_send path prepend_dir =
      accept_transfer_client_connection
      ⨾ send_reply (codes "150 Here comes the directory listing.") []
      ⨾ nlst_all path prepend_dir

  -- The listing of the directory, if there is one.
  unfoldable pub nlst_found : Bytes → Option Bytes → M K ℤ
  unfolding nlst_send
  nlst_found args none = pure failure
  nlst_found args (some path) = nlst_send path (ltb 0 (length args))

  -- `CommandHandlerNlst`
  unfoldable pub command_nlst : Bytes → M K ℤ
  unfolding nlst_path nlst_found
  command_nlst args = do
    r ← (nlst_path args >>= nlst_found args)
    close_transfer_client_socket
    close_transfer_socket
    if is_zero r
        then send_reply (codes "226 Directory send OK.") []
        else send_reply (codes "550 Permission Denied.") []

  -- The path that `CommandHandlerPwd` reports.
  unfoldable pub pwd_path : Option Bytes → M K (Option Bytes)
  pwd_path none = pure none
  pwd_path (some dir) = gets (λ d. real_path_to_server_path d dir (length dir))

  -- The reply of `CommandHandlerPwd`.
  unfoldable pub pwd_reply : Option Bytes → M K ℤ
  pwd_reply none = send_reply (codes "550 Failed to get directory.") []
  pwd_reply (some path) = send_reply (codes "257 \"%s\"") (str path ∷ [])

  -- `CommandHandlerPwd`
  unfoldable pub command_pwd : Bytes → M K ℤ
  unfolding pwd_path pwd_reply
  command_pwd args = get_cwd path_len_max >>= pwd_path >>= pwd_reply

  -- `VSFTPServerSetCwd` on the path found, if there is one.
  unfoldable pub set_cwd_found : Option Bytes → M K ℤ
  set_cwd_found none = pure failure
  set_cwd_found (some path) = set_cwd path

  -- The change itself of `CommandHandlerCwd`.
  unfoldable pub cwd_change : Bytes → M K ℤ
  unfolding set_cwd_found
  cwd_change args =
      if length args == 0 then pure failure else server_path_to_real_path args >>= set_cwd_found

  -- `CommandHandlerCwd`
  unfoldable pub command_cwd : Bytes → M K ℤ
  unfolding cwd_change
  command_cwd args = do
    r ← cwd_change args
    if is_zero r
        then send_reply (codes "250 Directory successfully changed.") []
        else send_reply (codes "550 Failed to change directory.") []
